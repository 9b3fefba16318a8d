-- ===== src/Admission/Refill.antt =====
-- Step 3 of the script: what a refill can credit, and how far it can move the bucket's clock.
use quotaguard.Prelude.{
  Bool-cases, ap, arith, false, inl, inr, leb, true, ℕ, ◌*◌, ◌+◌, ◌-◌, ◌<◌, ◌≡◌, ◌≤◌,
}
use quotaguard.Admission.{Argv, Doubles, refill, utok}

-- What the refill relies on, at the rate and the capacity of a plan: the double comparison and the
-- double product never exceed the exact ones, and the clock moves by no less than a credit is worth. The
-- quotient behind the last is exact to the microsecond below 2 ^ 53, and above it is what is relied on.
pub record IsConservative (d : Doubles) (cap rate : ℕ) : Type 0 where
  pub refilled-le :
      (elapsed : ℕ) → d.is_refilled elapsed cap rate ≡ true → cap * utok ≤ elapsed * rate
  pub credit-le :
      (elapsed : ℕ)
      → d.is_refilled elapsed cap rate ≡ false
      → d.credit elapsed rate * utok ≤ elapsed * rate
  pub spent-ge :
      (elapsed : ℕ)
      → d.is_refilled elapsed cap rate ≡ false
      → d.credit elapsed rate * utok ≤ rate * d.spent (d.credit elapsed rate) rate

-- What a bucket is worth at a time, in microtokens times microseconds: the tokens it holds, and
-- the time that it has not been credited for yet.
abbrev pub worth : ℕ → ℕ → ℕ → ℕ → ℕ
worth rate now tokens ts = tokens * utok + rate * (now - ts)

-- Moving the clock by `k` gives up as much as `k` microseconds are worth, or all that there are.
worth_step :
    (rate now tokens ts add k : ℕ)
    → add * utok ≤ rate * (now - ts)
    → add * utok ≤ rate * k
    → worth rate now (tokens + add) (ts + k) ≤ worth rate now tokens ts
worth_step rate now tokens ts add k h c =
    let rest = now - (ts + k) in
    elim (Bool-cases (leb k (now - ts))) [
      | inl fits ↦
          let e : now - ts ≡ rest + k = ground arith in omega (arith, ap (λ (x : ℕ). rate * x) e)
      | inr over ↦ let z : rest ≡ 0 = ground arith in rw z (omega (arith, h))
    ]

worth_full :
    (rate now tokens ts full : ℕ)
    → full * utok ≤ tokens * utok + rate * (now - ts)
    → worth rate now full now ≤ worth rate now tokens ts
worth_full rate now tokens ts full h = let e : now - now ≡ 0 = omega arith in rw e (omega arith)

module _ (d : Doubles) (a : Argv) (safe : IsConservative d a.cap_utok a.rate_utok) (now : ℕ) where
  -- A refill never makes a bucket worth more than it was.
  pub worth-refill-le :
      (tokens ts : ℕ)
      → 0 < a.rate_utok
      → let after = refill d a now tokens ts in
        worth a.rate_utok now after.tokens after.ts ≤ worth a.rate_utok now tokens ts
  unfolding refill
  worth-refill-le tokens ts hr =
      let e = now - ts in
      let add = d.credit e a.rate_utok in
      elim (Bool-cases (d.is_refilled e a.cap_utok a.rate_utok)) [
        | inl full ↦ rw full (
            worth_full a.rate_utok now tokens ts a.cap_utok
              (omega (arith, safe.refilled-le e full)))
        | inr part ↦
            let c = safe.credit-le e part in
            rw part (
              ground (
                arith,
                worth_full a.rate_utok now tokens ts a.cap_utok,
                worth_step a.rate_utok now tokens ts add (d.spent add a.rate_utok),
                safe.spent-ge e part,
                c,
              ))
      ]
