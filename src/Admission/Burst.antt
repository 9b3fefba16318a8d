-- ===== src/Admission/Burst.antt =====
-- The token bucket over a run of calls: what it admits is bounded by its capacity and the time.
use native.Mathlib.Nat.{mul-le-mul_left}
use quotaguard.Prelude.{
  All, Bool-cases, List, Option, Text, [], ap, arith, if◌then◌else◌, inl, inr, none, refl, some,
  text_eq, text_eq_sound, true, ℕ, ◌&&◌, ◌*◌, ◌+◌, ◌-◌, ◌<◌, ◌∙◌, ◌∷◌, ◌≡◌, ◌≤◌,
}
use quotaguard.Redis.{
  Bucket, Redis, expireat, hset, incrby, pexpire, put, set_string, setnx, zadd, zremrangebyscore,
}
use quotaguard.Admission.{
  Argv, Decision, Doubles, Keys, Reading, burst_ok, check, consume, consume_bucket, consume_quota,
  consume_window, is_allowed, month_deadline, now_us_of, raise_flag, read, read_bucket, report,
  settle, utok,
}
use quotaguard.Admission.Refill.{IsConservative, worth, worth-refill-le}
use quotaguard.Admission.Runs.{
  Call, IsOrdered, after, decide, final, last_time, last_time-le, total,
}

-- What the bucket of a key is worth; one that is not there is full.
abbrev pub bucket_worth : ℕ → ℕ → ℕ → Option ℕ → Option ℕ → ℕ
bucket_worth cap rate now (some t) (some ts) = worth rate now t ts
bucket_worth cap rate now _ _ = cap * utok

-- The cost that a call takes from the bucket under a key.
abbrev pub burst_charge : Text → Call → Decision → ℕ
burst_charge b c v = if v.allowed && text_eq c.keys.bucket b then c.argv.cost else 0

-- The calls on the bucket carry its capacity and its rate.
abbrev pub Draws : Text → ℕ → ℕ → Call → Type 0
Draws b cap rate c =
    text_eq c.keys.bucket b ≡ true → (c.argv.cap_utok ≡ cap) × (c.argv.rate_utok ≡ rate)

module _ (d : Doubles) (a : Argv) (safe : IsConservative d a.cap_utok a.rate_utok) (now : ℕ) where
  worth-read_bucket-le :
      (t ts : Option ℕ)
      → 0 < a.rate_utok
      → let after = read_bucket d a now t ts in
        worth a.rate_utok now after.tokens after.ts ≤ bucket_worth a.cap_utok a.rate_utok now t ts
  unfolding read_bucket
  worth-read_bucket-le (some t) (some ts) hr = worth-refill-le d a safe now t ts hr
  worth-read_bucket-le _ _ hr = let e : now - now ≡ 0 = omega arith in rw e (omega arith)

hashes-consume_quota :
    (a : Argv) (g : Reading) (r : Redis) → (consume_quota a g r).1.hashes ≡ r.hashes
unfolding consume_quota incrby month_deadline expireat set_string
hashes-consume_quota a g r = ground arith

hashes-raise_flag :
    (a : Argv) (g : Reading) (n : ℕ) (r : Redis) → (raise_flag a g n r).1.hashes ≡ r.hashes
unfolding raise_flag setnx month_deadline expireat set_string
hashes-raise_flag a g n r = ground arith

hashes-consume :
    (k : Keys) (a : Argv) (g : Reading) (r : Redis)
    → (consume k a g r).1.hashes
      ≡ put r.hashes k.bucket
          (record { t = some (g.bucket.tokens - a.cost * utok); ts = some g.bucket.ts })
unfolding consume consume_window consume_bucket hset zadd pexpire
hashes-consume k a g r =
    let r1 = consume_window k a g (consume_bucket k a g r) in
    let c = consume_quota a g r1 in hashes-raise_flag a g c.0 c.1 ∙ hashes-consume_quota a g r1

hashes-settle :
    (k : Keys) (a : Argv) (g : Reading) (b : Text) (r : Redis)
    → (settle k a g r).1.hashes b ≡ (
        if is_allowed a g && text_eq k.bucket b
        then record { t = some (g.bucket.tokens - a.cost * utok); ts = some g.bucket.ts }
        else r.hashes b)
unfolding settle put
hashes-settle k a g b r = elim (Bool-cases (is_allowed a g)) [
  | inl e ↦ rw e (ap (λ (m : Text → Bucket). m b) (hashes-consume k a g r))
  | inr e ↦ rw e
]

bucket_worth-later-le :
    (cap rate now later : ℕ) (t ts : Option ℕ)
    → now ≤ later
    → bucket_worth cap rate later t ts ≤ bucket_worth cap rate now t ts + rate * (later - now)
bucket_worth-later-le cap rate now later (some t) (some ts) h =
    let gap : later - ts ≤ (now - ts) + (later - now) = omega arith in
    omega (arith, mul-le-mul_left rate gap)
bucket_worth-later-le cap rate now later _ _ h = omega arith

-- The worth of what a store holds under a key.
abbrev pub stored_worth : Text → ℕ → ℕ → ℕ → Redis → ℕ
stored_worth b cap rate now r = bucket_worth cap rate now (r.hashes b).t (r.hashes b).ts

settle-worth-le :
    (k : Keys) (a : Argv) (g : Reading) (b : Text) (r : Redis) (cap rate now : ℕ)
    → (text_eq k.bucket b ≡ true
        → worth rate now g.bucket.tokens g.bucket.ts ≤ stored_worth b cap rate now r)
    → stored_worth b cap rate now (settle k a g r).1
        + (if is_allowed a g && text_eq k.bucket b then a.cost else 0) * utok * utok
      ≤ stored_worth b cap rate now r
unfolding is_allowed burst_ok
settle-worth-le k a g b r cap rate now h = rw hashes-settle (ground arith)

stored_worth-later-le :
    (b : Text) (cap rate now later : ℕ) (r : Redis)
    → now ≤ later
    → stored_worth b cap rate later r ≤ stored_worth b cap rate now r + rate * (later - now)
stored_worth-later-le b cap rate now later r h =
    bucket_worth-later-le cap rate now later (r.hashes b).t (r.hashes b).ts h

module _ (d : Doubles) (b : Text) (cap rate : ℕ) (hr : 0 < rate)
    (safe : IsConservative d cap rate) where
  drawn-worth-le :
      (c : Call) (r : Redis)
      → Draws b cap rate c
      → text_eq c.keys.bucket b ≡ true
      → let now = now_us_of c.time in
        let h = r.hashes c.keys.bucket in
        let seen = read_bucket d c.argv now h.t h.ts in
        worth rate now seen.tokens seen.ts ≤ stored_worth b cap rate now r
  drawn-worth-le c r draws e =
      let (ec, er) = draws e in
      let h = r.hashes c.keys.bucket in
      rw (← ec, ← er, ← text_eq_sound c.keys.bucket b e)
        (worth-read_bucket-le d c.argv (rw (ec, er) safe) (now_us_of c.time) h.t h.ts (rw er hr))

  -- The bucket's worth when a call looks at it, less what the call takes.
  call-worth-le :
      (c : Call) (r : Redis)
      → Draws b cap rate c
      → let now = now_us_of c.time in
        stored_worth b cap rate now (after d c r) + burst_charge b c (decide d c r) * utok * utok
        ≤ stored_worth b cap rate now r
  unfolding check report read zremrangebyscore
  call-worth-le c r draws =
      let (g, t) = read d c.keys c.argv c.time r in
      settle-worth-le c.keys c.argv g b t cap rate (now_us_of c.time) (drawn-worth-le c r draws)

  run-worth-le :
      (calls : List Call) (t : ℕ) (r : Redis)
      → All (Draws b cap rate) calls
      → IsOrdered t calls
      → stored_worth b cap rate (last_time t calls) (final d calls r)
          + total d (burst_charge b) calls r * utok * utok
        ≤ stored_worth b cap rate t r + rate * (last_time t calls - t)
  unfolding final total
  run-worth-le [] t r draws ord = omega arith
  run-worth-le (c ∷ cs) t r draws ord =
      let now = now_us_of c.time in
      let end = last_time now cs in
      let e : end - t ≡ (end - now) + (now - t) = omega (arith, last_time-le now cs ord.1, ord.0) in
      omega (
        arith,
        call-worth-le c r draws.0,
        run-worth-le cs now (after d c r) draws.1 ord.1,
        stored_worth-later-le b cap rate t now r ord.0,
        ap (λ (x : ℕ). rate * x) e,
      )

-- The burst layer over any stretch of time: on a bucket that is not there at the start, and
-- at the capacity and the refill rate of one plan, the cost admitted up to any later time is at most
-- the capacity, and the rate times the microseconds that have passed. The rate is not 0, the calls come
-- in the order of their times, those on the bucket carry its capacity and rate, and no double computation
-- of the script credits more, or moves the bucket's clock by less, than the exact one.
pub burst_bounded :
    (d : Doubles) (b : Text) (capacity refill_per_sec : ℕ) (calls : List Call) (t : ℕ) (r : Redis)
    → IsConservative d (capacity * utok) (refill_per_sec * utok)
    → 0 < refill_per_sec
    → All (Draws b (capacity * utok) (refill_per_sec * utok)) calls
    → IsOrdered t calls
    → (r.hashes b).t ≡ none
    → total d (burst_charge b) calls r * utok
      ≤ capacity * utok + refill_per_sec * (last_time t calls - t)
burst_bounded d b capacity refill_per_sec calls t r safe hr draws ord new =
    let start : stored_worth b (capacity * utok) (refill_per_sec * utok) t r
        ≡ capacity * utok * utok =
      rw new refl in
    omega (
      arith,
      start,
      run-worth-le d b (capacity * utok) (refill_per_sec * utok) (omega arith) safe calls t r draws
          ord,
    )
