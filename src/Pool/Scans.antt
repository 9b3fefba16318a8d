-- ===== src/Pool/Scans.antt =====
-- A scan ends, and has what the pages of its iteration name.
use quotaguard.Prelude.{
  All, All-imp, Among, Among-left, Among-right, Among-self, Bool-cases, List, Option, Text, arith,
  false, inl, inr, none, refl, some, split, suc, true, zero, ℕ, ◌++◌, ◌<◌, ◌==◌, ◌≡◌, ◌⊎◌,
}
use quotaguard.Errors.{Result, ok, raise, redis_error}
use quotaguard.Pool.{Pool, add_page, after_page, after_read, scan_from}

-- A page that the iteration from a cursor comes to.
pub data Page (pool : Pool) (pattern : Text) : ℕ → List Text → Type 0 where
  first_page :
      (cursor next : ℕ) (keys : List Text)
      → pool.scan pattern cursor ≡ some (next, keys)
      → Page pool pattern cursor keys
  later_page :
      (cursor next : ℕ) (keys page : List Text)
      → pool.scan pattern cursor ≡ some (next, keys)
      → (next == 0) ≡ false
      → Page pool pattern next page
      → Page pool pattern cursor page

-- What Redis's documentation says of SCAN: an iteration comes back to the cursor 0. The rank of a cursor
-- is how many pages are left at most.
abbrev pub Descends : Pool → Text → (ℕ → ℕ) → Type 0
Descends pool pattern rank =
    (cursor next : ℕ) (keys : List Text)
    → pool.scan pattern cursor ≡ some (next, keys)
    → (next == 0) ≡ false
    → rank next < rank cursor

module _ {A : Type 0} (pool : Pool) (pattern : Text) (read : List Text → Result (List A)) where
  add_page-some :
      (xs : List A) (r : Result (List A))
      → (r' : Result (List A)) × (add_page pool pattern read xs (some r) ≡ some r')
  unfolding add_page
  add_page-some xs (ok rest) = (ok (xs ++ rest), refl)
  add_page-some xs (raise e) = (raise e, refl)

  -- The answer of a loop that went on after a page, if the rest has one.
  after_read-some :
      (next : ℕ) (rest : Option (Result (List A))) (r : Result (List A))
      → ((next == 0) ≡ false → (r' : Result (List A)) × (rest ≡ some r'))
      → (r' : Result (List A)) × (after_read pool pattern read rest next r ≡ some r')
  unfolding after_read
  after_read-some next rest (raise e) h = (raise e, refl)
  after_read-some next rest (ok xs) h = elim (Bool-cases (next == 0)) [
    | inl last ↦ (ok xs, rw last refl)
    | inr more ↦
        let (r', e) = h more in let (r'', e') = add_page-some xs r' in (r'', rw (more, e) e')
  ]

  after_page-some :
      (rank : ℕ → ℕ) (n : ℕ) (rest : ℕ → Option (Result (List A))) (page : Option (ℕ × List Text))
      → ((next : ℕ) (keys : List Text)
          → page ≡ some (next, keys)
          → (next == 0) ≡ false
          → (r : Result (List A)) × (rest next ≡ some r))
      → (r : Result (List A)) × (after_page pool pattern read rest page ≡ some r)
  unfolding after_page
  after_page-some rank n rest none h = (raise redis_error, refl)
  after_page-some rank n rest (some (next, keys)) h =
      after_read-some next (rest next) (read keys) (h next keys refl)

  -- With more fuel than the rank of the cursor the loop ends.
  pub scan_from-some :
      (rank : ℕ → ℕ) (fuel cursor : ℕ)
      → Descends pool pattern rank
      → rank cursor < fuel
      → (r : Result (List A)) × (scan_from pool pattern read fuel cursor ≡ some r)
  unfolding scan_from
  scan_from-some rank zero cursor d h = absurd (omega arith)
  scan_from-some rank (suc fuel) cursor d h =
      after_page-some rank cursor (scan_from pool pattern read fuel) (pool.scan pattern cursor)
        (λ next keys e more.
          let below : rank next < rank cursor = d cursor next keys e more in
          scan_from-some rank fuel next d (omega arith))

  -- How a loop that went well has its elements: those of the page, and then those of the rest.
  abbrev Split : List A → Option (Result (List A)) → ℕ → List A → Type 0
  Split xs rest next found =
      (((next == 0) ≡ true) × (xs ≡ found))
      ⊎ ((zs : List A) × (rest ≡ some (ok zs)) × (xs ≡ found ++ zs))

  add_page-inverse :
      (found : List A) (rest : Option (Result (List A))) (xs : List A)
      → add_page pool pattern read found rest ≡ some (ok xs)
      → (zs : List A) × (rest ≡ some (ok zs)) × (xs ≡ found ++ zs)
  unfolding add_page
  add_page-inverse found none xs h = cc
  add_page-inverse found (some (raise e)) xs h = cc
  add_page-inverse found (some (ok zs)) xs h = (zs, refl, cc)

  after_read-inverse :
      (next : ℕ) (rest : Option (Result (List A))) (r : Result (List A)) (xs : List A)
      → after_read pool pattern read rest next r ≡ some (ok xs)
      → (found : List A) × (r ≡ ok found) × Split xs rest next found
  unfolding after_read
  after_read-inverse next rest (raise e) xs h = cc
  after_read-inverse next rest (ok found) xs h = elim (Bool-cases (next == 0)) [
    | inl last ↦
        let same : some (ok found) ≡ some (ok xs) = rw last at h in (found, refl, inl (last, cc))
    | inr more ↦ (found, refl, inr (add_page-inverse found rest xs (rw more at h)))
  ]

  after_page-inverse :
      (rest : ℕ → Option (Result (List A))) (next : ℕ) (keys : List Text) (xs : List A)
      → (page : Option (ℕ × List Text)) → page ≡ some (next, keys)
      → after_page pool pattern read rest page ≡ some (ok xs)
      → (found : List A) × (read keys ≡ ok found) × Split xs (rest next) next found
  unfolding after_page
  after_page-inverse rest next keys xs page e h =
      after_read-inverse next (rest next) (read keys) xs (rw e at h)

  Split-All :
      (xs found : List A) (rest : Option (Result (List A))) (next : ℕ)
      → Split xs rest next found
      → All (λ x. Among x xs) found
  Split-All xs found rest next (inl (last, same)) = rw same (Among-self found)
  Split-All xs found rest next (inr (zs, e, same)) =
      rw same (All-imp found (λ x. Among-left x found zs) (Among-self found))

  -- What was read of a page, in the result.
  abbrev pub ReadInto : List Text → List A → Type 0
  ReadInto keys xs = (page : List A) × (read keys ≡ ok page) × All (λ x. Among x xs) page

  later-ReadInto :
      (fuel next : ℕ) (keys : List Text) (xs found : List A)
      → Split xs (scan_from pool pattern read fuel next) next found
      → (next == 0) ≡ false
      → ((zs : List A) → scan_from pool pattern read fuel next ≡ some (ok zs) → ReadInto keys zs)
      → ReadInto keys xs
  later-ReadInto fuel next keys xs found (inl (last, same)) more h = cc
  later-ReadInto fuel next keys xs found (inr (zs, r, same)) more h =
      let (page, e, all) = h zs r in
      (page, e, rw same (All-imp page (λ x. Among-right x found zs) all))

  -- What was read of every page of the iteration is in the result.
  pub scan_from-Page :
      (fuel cursor : ℕ) (keys : List Text) (xs : List A)
      → Page pool pattern cursor keys
      → scan_from pool pattern read fuel cursor ≡ some (ok xs)
      → ReadInto keys xs
  unfolding scan_from
  scan_from-Page zero cursor keys xs p h = cc
  scan_from-Page (suc fuel) _ _ xs (first_page cursor next keys q) h =
      let (found, same, split) =
        after_page-inverse (scan_from pool pattern read fuel) next keys xs _ q h in
      (found, same, Split-All xs found _ next split)
  scan_from-Page (suc fuel) _ _ xs (later_page cursor next before keys q more p) h =
      let (found, same, split) =
        after_page-inverse (scan_from pool pattern read fuel) next before xs _ q h in
      later-ReadInto fuel next keys xs found split more (λ zs. scan_from-Page fuel next keys zs p)

  -- A scan fails only where a command does.
  abbrev pub FailsAsRedis : Option (Result (List A)) → Type 0
  FailsAsRedis (some (raise e)) = e ≡ redis_error
  FailsAsRedis _ = Unit

  add_page-FailsAsRedis :
      (found : List A) (rest : Option (Result (List A)))
      → FailsAsRedis rest
      → FailsAsRedis (add_page pool pattern read found rest)
  unfolding add_page
  add_page-FailsAsRedis found none h = tt
  add_page-FailsAsRedis found (some (raise e)) h = h
  add_page-FailsAsRedis found (some (ok xs)) h = tt

  after_read-FailsAsRedis :
      (rest : Option (Result (List A))) (next : ℕ) (r : Result (List A))
      → FailsAsRedis rest
      → FailsAsRedis (some r)
      → FailsAsRedis (after_read pool pattern read rest next r)
  unfolding after_read
  after_read-FailsAsRedis rest next (raise e) h k = k
  after_read-FailsAsRedis rest next (ok found) h k = elim (Bool-cases (next == 0)) [
    | inl last ↦ rw last tt
    | inr more ↦ rw more (add_page-FailsAsRedis found rest h)
  ]

  after_page-FailsAsRedis :
      (rest : ℕ → Option (Result (List A))) (page : Option (ℕ × List Text))
      → ((next : ℕ) → FailsAsRedis (rest next))
      → ((keys : List Text) → FailsAsRedis (some (read keys)))
      → FailsAsRedis (after_page pool pattern read rest page)
  unfolding after_page
  after_page-FailsAsRedis rest none h k = refl
  after_page-FailsAsRedis rest (some (next, keys)) h k =
      after_read-FailsAsRedis (rest next) next (read keys) (h next) (k keys)

  pub scan_from-FailsAsRedis :
      (fuel cursor : ℕ)
      → ((keys : List Text) → FailsAsRedis (some (read keys)))
      → FailsAsRedis (scan_from pool pattern read fuel cursor)
  unfolding scan_from
  scan_from-FailsAsRedis zero cursor k = tt
  scan_from-FailsAsRedis (suc fuel) cursor k =
      after_page-FailsAsRedis (scan_from pool pattern read fuel) (pool.scan pattern cursor)
        (λ next. scan_from-FailsAsRedis fuel next k) k
