-- ===== src/Pool.antt =====
-- The Redis pool as app/services/rollup.py uses it: its commands SCAN and GET, and the two scans. What
-- SCAN answers to a pattern and a cursor is Redis's own, and so is a command that fails.
pub mod Complete
pub mod Scans
mod Tests
use quotaguard.Prelude.{
  Bool, List, Option, Text, [], codes, if◌then◌else◌, none, some, suc, zero, ℕ, ◌++◌, ◌==◌, ◌∷◌,
}
use quotaguard.Errors.{Result, ok, raise, redis_error, ◌>>=◌}
use quotaguard.Redis.{Redis}

-- `none` and `lost` are a command that fails with RedisError.
pub record Pool : Type 0 where
  pub scan : Text → ℕ → Option (ℕ × List Text)
  pub lost : Text → Bool
  pub redis : Redis

abbrev pub quota_pattern : Text
quota_pattern = codes "qg:q:*"

abbrev pub flag_pattern : Text
flag_pattern = codes "qg:f:*"

unfoldable pub get_value : Pool → Text → Result (Option ℕ)
get_value pool key = if pool.lost key then raise redis_error else ok (pool.redis.strings key)

-- A counter that the scan found: its key and its value.
abbrev pub Scanned : Type 0
Scanned = Text × ℕ

unfoldable pub with_value : Text → Option ℕ → List Scanned → List Scanned
with_value key none rest = rest
with_value key (some v) rest = (key, v) ∷ rest

-- The keys of one page with their values; a key that is gone by now is left out.
unfoldable pub read_values : Pool → List Text → Result (List Scanned)
read_values pool [] = ok []
read_values pool (key ∷ keys) = do
  v ← get_value pool key
  rest ← read_values pool keys
  ok (with_value key v rest)

module _ {A : Type 0} (pool : Pool) (pattern : Text) (read : List Text → Result (List A)) where
  -- What the loop does with a page that is read, and the pages after it.
  unfoldable pub add_page : List A → Option (Result (List A)) → Option (Result (List A))
  add_page here (some (ok rest)) = some (ok (here ++ rest))
  add_page here other = other

  unfoldable pub after_read :
      Option (Result (List A)) → ℕ → Result (List A) → Option (Result (List A))
  after_read rest next (raise e) = some (raise e)
  after_read rest next (ok here) = if next == 0 then some (ok here) else add_page here rest

  unfoldable pub after_page :
      (ℕ → Option (Result (List A))) → Option (ℕ × List Text) → Option (Result (List A))
  after_page rest none = some (raise redis_error)
  after_page rest (some (next, keys)) = after_read (rest next) next (read keys)

  -- The loop of both scans, from a cursor until the cursor 0 comes back; none is the end of the fuel.
  unfoldable pub scan_from : ℕ → ℕ → Option (Result (List A))
  scan_from zero cursor = none
  scan_from (suc fuel) cursor = after_page (scan_from fuel) (pool.scan pattern cursor)

unfoldable pub scan_quota_keys : ℕ → Pool → Option (Result (List Scanned))
scan_quota_keys fuel pool = scan_from pool quota_pattern (read_values pool) fuel 0

unfoldable pub scan_flag_keys : ℕ → Pool → Option (Result (List Text))
scan_flag_keys fuel pool = scan_from pool flag_pattern ok fuel 0
