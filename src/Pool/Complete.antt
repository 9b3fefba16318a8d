-- ===== src/Pool/Complete.antt =====
-- The scan of the counters: it ends, and it misses no counter that Redis names.
use quotaguard.Prelude.{
  All-Among, Among, Bool-cases, List, Option, Text, [], arith, inl, inr, none, refl, some, ℕ, ◌<◌,
  ◌∷◌, ◌≡◌,
}
use quotaguard.Errors.{Exception, Result, ok, raise, redis_error}
use quotaguard.Errors.Laws.{bind-ok}
use quotaguard.Pool.{
  Pool, Scanned, get_value, quota_pattern, read_values, scan_quota_keys, with_value,
}
use quotaguard.Pool.Scans.{
  Descends, FailsAsRedis, Page, scan_from-FailsAsRedis, scan_from-Page, scan_from-some,
}

-- How the first key of a page was read.
read_values-inverse :
    (pool : Pool) (key : Text) (keys : List Text) (found : List Scanned)
    → read_values pool (key ∷ keys) ≡ ok found
    → (rest : List Scanned) × (read_values pool keys ≡ ok rest)
      × (found ≡ with_value key (pool.redis.strings key) rest)
unfolding read_values get_value
read_values-inverse pool key keys found e = elim (Bool-cases (pool.lost key)) [
  | inl gone ↦ let bad : raise redis_error ≡ ok found = rw gone at e in cc
  | inr there ↦
      bind-ok (read_values pool keys) (with_value key (pool.redis.strings key)) found
        (rw there at e)
]

with_value-Among :
    (x : Scanned) (key : Text) (v : Option ℕ) (rest : List Scanned)
    → Among x rest
    → Among x (with_value key v rest)
unfolding with_value
with_value-Among x key none rest h = h
with_value-Among x key (some v) rest h = inr h

read_values-Among :
    (pool : Pool) (key : Text) (v : ℕ) (keys : List Text) (found : List Scanned)
    → Among key keys
    → pool.redis.strings key ≡ some v
    → read_values pool keys ≡ ok found
    → Among (key, v) found
unfolding with_value
read_values-Among pool key v [] found m there e = absurd m
read_values-Among pool key v (k ∷ keys) found (inl first_one) there e =
    let (rest, later, whole) = read_values-inverse pool k keys found e in
    rw (whole, ← first_one, there) (inl refl)
read_values-Among pool key v (k ∷ keys) found (inr m) there e =
    let (rest, later, whole) = read_values-inverse pool k keys found e in
    rw whole (
      with_value-Among (key, v) k (pool.redis.strings k) rest
        (read_values-Among pool key v keys rest m there later))

read_values-raise :
    (pool : Pool) (keys : List Text) (e : Exception)
    → read_values pool keys ≡ raise e
    → e ≡ redis_error
unfolding read_values get_value
read_values-raise pool [] e h = cc
read_values-raise pool (key ∷ keys) e h = ground (arith, read_values-raise pool keys e)

read_values-FailsAsRedis :
    (pool : Pool) (pattern : Text) (keys : List Text) (r : Result (List Scanned))
    → read_values pool keys ≡ r
    → FailsAsRedis pool pattern (read_values pool) (some r)
read_values-FailsAsRedis pool pattern keys (ok found) h = tt
read_values-FailsAsRedis pool pattern keys (raise e) h = read_values-raise pool keys e h

-- What a scan returns: the counter, or the exception of a command that failed.
abbrev pub Finds : Text → ℕ → Result (List Scanned) → Type 0
Finds key v (ok found) = Among (key, v) found
Finds key v (raise e) = e ≡ redis_error

found-Finds :
    (pool : Pool) (fuel : ℕ) (keys : List Text) (key : Text) (v : ℕ) (r : Result (List Scanned))
    → scan_quota_keys fuel pool ≡ some r
    → Page pool quota_pattern 0 keys
    → Among key keys
    → pool.redis.strings key ≡ some v
    → Finds key v r
unfolding scan_quota_keys
found-Finds pool fuel keys key v (raise e) h p m there =
    let failing =
      scan_from-FailsAsRedis pool quota_pattern (read_values pool) fuel 0
        (λ page. read_values-FailsAsRedis pool quota_pattern page _ refl) in
    rw h at failing
found-Finds pool fuel keys key v (ok xs) h p m there =
    let (page, e, all) = scan_from-Page pool quota_pattern (read_values pool) fuel 0 keys xs p h in
    All-Among (λ x. Among x xs) page (key, v) all (read_values-Among pool key v keys page m there e)

-- On a server whose SCAN comes back to the cursor 0, and with more fuel than the iteration has pages, the
-- scan of the counters ends; and it returns every counter that a page of the iteration names and that is
-- there, with its value, or raises the client's exception.
pub scan_quota_keys-Finds :
    (pool : Pool) (rank : ℕ → ℕ) (fuel : ℕ) (keys : List Text) (key : Text) (v : ℕ)
    → Descends pool quota_pattern rank
    → rank 0 < fuel
    → Page pool quota_pattern 0 keys
    → Among key keys
    → pool.redis.strings key ≡ some v
    → (r : Result (List Scanned)) × (scan_quota_keys fuel pool ≡ some r) × Finds key v r
unfolding scan_quota_keys
scan_quota_keys-Finds pool rank fuel keys key v d enough p m there =
    let (r, h) = scan_from-some pool quota_pattern (read_values pool) rank fuel 0 d enough in
    (r, h, found-Finds pool fuel keys key v r h p m there)
