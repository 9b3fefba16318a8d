-- ===== src/Admission/Window.antt =====
-- The sliding window over a run of calls: never more members, nor more admissions in any span of the
-- window's length, than the sustained limit.
use quotaguard.Redis.Laws.{length-insert_member, put_self}
use quotaguard.Prelude.{
  All, All-select, Bool, Bool-cases, List, Text, [], ap, arith, codes, decimal, if◌then◌else◌, inl,
  inr, length, length-select, ltb, not, refl, select, select-All, text_eq, text_eq_sound, true, ℕ,
  ◌&&◌, ◌++◌, ◌+◌, ◌-◌, ◌<◌, ◌∙◌, ◌∷◌, ◌≡◌, ◌≤◌,
}
use quotaguard.Redis.{
  Member, Redis, expireat, hset, incrby, insert_member, pexpire, put, set_string, setnx, zadd,
  zcard, zremrangebyscore,
}
use quotaguard.Admission.{
  Argv, Decision, Doubles, Keys, Reading, check, consume, consume_bucket, consume_quota,
  consume_window, is_allowed, month_deadline, now_us_of, raise_flag, read, report, settle,
  sustained_ok,
}
use quotaguard.Admission.Runs.{
  Call, IsOrdered, after, decide, final, last_time, last_time-le, total,
}

-- The member that an admitted call adds.
abbrev pub member_of : Argv → ℕ → Member
member_of a now = record { score = now; name = decimal now ++ codes "-" ++ a.request_id }

abbrev is_since : ℕ → Member → Bool
is_since bound m = not (ltb m.score bound)

-- No member of the window has the name yet: request ids are not used twice.
abbrev pub IsNew : Member → List Member → Type 0
IsNew m xs = All (λ x. not (text_eq m.name x.name) ≡ true) xs

length-select-insert_member :
    (p : Member → Bool) (m : Member) (xs : List Member)
    → length (select p (insert_member m xs)) ≡ length (select p xs) + (if p m then 1 else 0)
unfolding insert_member
length-select-insert_member p m [] = ground arith
length-select-insert_member p m (x ∷ xs) = ground (arith, length-select-insert_member p m xs)

select-is_since-since :
    (early late : ℕ) (xs : List Member)
    → early ≤ late
    → select (is_since late) (select (is_since early) xs) ≡ select (is_since late) xs
select-is_since-since early late [] h = refl
select-is_since-since early late (x ∷ xs) h = ground (arith, select-is_since-since early late xs h)

zsets-consume_quota : (a : Argv) (g : Reading) (r : Redis) → (consume_quota a g r).1.zsets ≡ r.zsets
unfolding consume_quota incrby month_deadline expireat set_string
zsets-consume_quota a g r = ground arith

zsets-raise_flag :
    (a : Argv) (g : Reading) (n : ℕ) (r : Redis) → (raise_flag a g n r).1.zsets ≡ r.zsets
unfolding raise_flag setnx month_deadline expireat set_string
zsets-raise_flag a g n r = ground arith

-- The window of an admitted call, with the call's member in it.
abbrev added : Member → List Member → List Member
added m xs = insert_member m (select (λ x. not (text_eq m.name x.name)) xs)

zsets-consume :
    (k : Keys) (a : Argv) (g : Reading) (r : Redis)
    → (consume k a g r).1.zsets
      ≡ put r.zsets k.window (added (member_of a g.now_us) (r.zsets k.window))
unfolding consume consume_window consume_bucket hset zadd pexpire
zsets-consume k a g r =
    let r1 = consume_window k a g (consume_bucket k a g r) in
    let c = consume_quota a g r1 in zsets-raise_flag a g c.0 c.1 ∙ zsets-consume_quota a g r1

zsets-settle :
    (k : Keys) (a : Argv) (g : Reading) (w : Text) (r : Redis)
    → (settle k a g r).1.zsets w ≡ (
        if is_allowed a g && text_eq k.window w
        then added (member_of a g.now_us) (r.zsets k.window)
        else r.zsets w)
unfolding settle put
zsets-settle k a g w r = elim (Bool-cases (is_allowed a g)) [
  | inl e ↦ rw e (ap (λ (m : Text → List Member). m w) (zsets-consume k a g r))
  | inr e ↦ rw e
]

-- 1 for a call that is admitted to the window under a key, no earlier than the bound.
abbrev pub window_charge : Text → ℕ → Call → Decision → ℕ
window_charge w bound c v =
    if v.allowed && text_eq c.keys.window w && not (ltb (now_us_of c.time) bound) then 1 else 0

-- The calls on the window carry its limit and its length.
abbrev pub Enters : Text → ℕ → ℕ → Call → Type 0
Enters w limit span c =
    text_eq c.keys.window w ≡ true → (c.argv.sustained_limit ≡ limit) × (c.argv.window_us ≡ span)

-- The request id of each call on the window is new to it.
abbrev pub IsFresh : Doubles → Text → List Call → Redis → Type 0
IsFresh d w [] r = Unit
IsFresh d w (c ∷ cs) r =
    IsNew (member_of c.argv (now_us_of c.time)) (r.zsets w) × IsFresh d w cs (after d c r)

length-added :
    (p : Member → Bool) (m : Member) (xs : List Member)
    → IsNew m xs
    → length (select p (added m xs)) ≡ length (select p xs) + (if p m then 1 else 0)
length-added p m xs new = rw (select-All _ xs new) (length-select-insert_member p m xs)

length-added-le : (m : Member) (xs : List Member) → length (added m xs) ≤ length xs + 1
length-added-le m xs =
    let rest = select (λ x. not (text_eq m.name x.name)) xs in
    omega (arith, length-insert_member m rest, length-select (λ x. not (text_eq m.name x.name)) xs)

trimmed_lem :
    (w : Text) (bound : ℕ) (r : Redis)
    → (zremrangebyscore w bound r).zsets w ≡ select (is_since bound) (r.zsets w)
unfolding zremrangebyscore
trimmed_lem w bound r = put_self r.zsets w (select (is_since bound) (r.zsets w))

module _ (d : Doubles) (w : Text) (limit span : ℕ) where
  zsets-check :
      (c : Call) (r : Redis)
      → let trimmed =
          select (is_since (now_us_of c.time - c.argv.window_us)) (r.zsets c.keys.window) in
        (after d c r).zsets w ≡ (
          if text_eq c.keys.window w
          then (if (decide d c r).allowed
              then added (member_of c.argv (now_us_of c.time)) trimmed
              else trimmed)
          else r.zsets w)
  unfolding check report read zremrangebyscore put
  zsets-check c r =
      let (g, t) = read d c.keys c.argv c.time r in
      zsets-settle c.keys c.argv g w t
      ∙ ground (arith, trimmed_lem c.keys.window (now_us_of c.time - c.argv.window_us) r)

  sustained-le :
      (c : Call) (r : Redis)
      → (decide d c r).allowed ≡ true
      → length (select (is_since (now_us_of c.time - c.argv.window_us)) (r.zsets c.keys.window))
        < c.argv.sustained_limit
  unfolding check report read is_allowed sustained_ok zcard zremrangebyscore put
  sustained-le c r h =
      ground (arith, ap length (trimmed_lem c.keys.window (now_us_of c.time - c.argv.window_us) r))

  call-window-le :
      (c : Call) (r : Redis)
      → Enters w limit span c
      → length (r.zsets w) ≤ limit
      → length ((after d c r).zsets w) ≤ limit
  call-window-le c r enters h =
      let bound = now_us_of c.time - c.argv.window_us in
      let xs = r.zsets c.keys.window in
      let trimmed = select (is_since bound) xs in
      ground (
        arith,
        zsets-check c r,
        sustained-le c r,
        length-added-le (member_of c.argv (now_us_of c.time)) trimmed,
        length-select (is_since bound) xs,
        text_eq_sound c.keys.window w,
        enters,
      )

  run-window-le :
      (calls : List Call) (r : Redis)
      → All (Enters w limit span) calls
      → length (r.zsets w) ≤ limit
      → length ((final d calls r).zsets w) ≤ limit
  unfolding final
  run-window-le [] r enters h = h
  run-window-le (c ∷ cs) r enters h =
      run-window-le cs (after d c r) enters.1 (call-window-le c r enters.0 h)

  -- What an admission adds to the members since a bound that no trim has passed.
  call-since :
      (c : Call) (r : Redis) (bound : ℕ)
      → Enters w limit span c
      → IsNew (member_of c.argv (now_us_of c.time)) (r.zsets w)
      → now_us_of c.time ≤ bound + span
      → length (select (is_since bound) (r.zsets w)) + window_charge w bound c (decide d c r)
        ≤ length (select (is_since bound) ((after d c r).zsets w))
  call-since c r bound enters new late =
      let early = now_us_of c.time - c.argv.window_us in
      let xs = r.zsets c.keys.window in
      let m = member_of c.argv (now_us_of c.time) in
      elim (Bool-cases (text_eq c.keys.window w)) [
        | inr other ↦ rw (zsets-check, other) (ground arith)
        | inl here ↦
            let same : c.keys.window ≡ w = text_eq_sound c.keys.window w here in
            let span_eq : c.argv.window_us ≡ span = (enters here).1 in
            let kept : length (select (is_since bound) (select (is_since early) (r.zsets w)))
                ≡ length (select (is_since bound) (r.zsets w)) =
              ap length (select-is_since-since early bound (r.zsets w) (omega arith)) in
            let grown =
              length-added (is_since bound) m (select (is_since early) (r.zsets w))
                (All-select _ (is_since early) (r.zsets w) new) in
            rw zsets-check (rw (here, same) (ground (arith, kept, grown)))
      ]

  run-since :
      (calls : List Call) (t bound : ℕ) (r : Redis)
      → All (Enters w limit span) calls
      → IsFresh d w calls r
      → IsOrdered t calls
      → last_time t calls ≤ bound + span
      → length (select (is_since bound) (r.zsets w)) + total d (window_charge w bound) calls r
        ≤ length (select (is_since bound) ((final d calls r).zsets w))
  unfolding final total
  run-since [] t bound r enters fresh ord late = omega arith
  run-since (c ∷ cs) t bound r enters fresh ord late = omega (
    arith,
    last_time-le (now_us_of c.time) cs ord.1,
    call-since c r bound enters.0 fresh.0,
    run-since cs (now_us_of c.time) bound (after d c r) enters.1 fresh.1 ord.1 late,
  )

-- The sustained layer over any span of its window's length: of any ordered calls that end no later
-- than the span does, those of the window that carry its limit and length under new request ids,
-- at most the sustained limit are admitted since the span began; and the window's set never has
-- more members than the limit, if it has no more of them at the start.
pub window_bounded :
    (d : Doubles) (w : Text) (limit span : ℕ) (calls : List Call) (t bound : ℕ) (r : Redis)
    → All (Enters w limit span) calls
    → IsFresh d w calls r
    → IsOrdered t calls
    → last_time t calls ≤ bound + span
    → length (r.zsets w) ≤ limit
    → (total d (window_charge w bound) calls r ≤ limit)
      × (length ((final d calls r).zsets w) ≤ limit)
window_bounded d w limit span calls t bound r enters fresh ord late h =
    let small = run-window-le d w limit span calls r enters h in
    (
      omega (
        arith,
        small,
        run-since d w limit span calls t bound r enters fresh ord late,
        length-select (is_since bound) ((final d calls r).zsets w),
      ),
      small,
    )
