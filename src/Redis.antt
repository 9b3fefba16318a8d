-- ===== src/Redis.antt =====
-- The part of a Redis server that the scripts of app/lua use: hashes of the two bucket fields,
-- sorted sets, integer strings, and deadlines. A key of a kind is looked up in that kind's map,
-- since the program's key names begin with another prefix for each kind. A deadline is recorded and
-- never takes effect: no key expires.
pub mod Laws
use quotaguard.Prelude.{
  Bool, List, Option, Text, [], false, if◌then◌else◌, length, ltb, none, not, select, some, text_eq,
  true, ℕ, ◌*◌, ◌+◌, ◌/◌, ◌∷◌,
}

-- The fields `t` and `ts` of a bucket hash.
pub record Bucket : Type 0 where
  pub t : Option ℕ
  pub ts : Option ℕ

pub record Member : Type 0 where
  pub score : ℕ
  pub name : Text

-- Deadlines are in milliseconds of the server's clock.
pub record Redis : Type 0 where
  pub hashes : Text → Bucket
  pub zsets : Text → List Member
  pub strings : Text → Option ℕ
  pub deadlines : Text → Option ℕ

-- The reply of `TIME`.
pub record Time : Type 0 where
  pub seconds : ℕ
  pub micros : ℕ

abbrev pub empty : Redis
empty = record {
  hashes = λ _. record { t = none; ts = none };
  zsets = λ _. [];
  strings = λ _. none;
  deadlines = λ _. none;
}

module _ {ℓ} {V : Type ℓ} where
  unfoldable pub put : (Text → V) → Text → V → Text → V
  put m k v j = if text_eq k j then v else m j

unfoldable pub hset : Text → ℕ → ℕ → Redis → Redis
hset k t ts r = record r { hashes = put r.hashes k (record { t = some t; ts = some ts }) }

-- `ZREMRANGEBYSCORE k -inf (bound`: the bound itself stays.
unfoldable pub zremrangebyscore : Text → ℕ → Redis → Redis
zremrangebyscore k bound r = record r {
  zsets = put r.zsets k (select (λ m. not (ltb m.score bound)) (r.zsets k));
}

unfoldable pub zcard : Text → Redis → ℕ
zcard k r = length (r.zsets k)

-- Members of one score are kept in the order of their arrival; Redis orders them by name, which
-- the scripts, reading the first score alone, cannot tell.
unfoldable pub insert_member : Member → List Member → List Member
insert_member m [] = m ∷ []
insert_member m (x ∷ xs) = if ltb m.score x.score then m ∷ x ∷ xs else x ∷ insert_member m xs

-- A member that is there already gets the new score.
unfoldable pub zadd : Text → Member → Redis → Redis
unfolding insert_member
zadd k m r = record r {
  zsets = put r.zsets k (insert_member m (select (λ x. not (text_eq m.name x.name)) (r.zsets k)));
}

-- `tonumber(redis.call('GET', k)) or 0`
unfoldable pub number_or_zero : Option ℕ → ℕ
number_or_zero none = 0
number_or_zero (some n) = n

unfoldable pub counter : Text → Redis → ℕ
unfolding number_or_zero
counter k r = number_or_zero (r.strings k)

unfoldable pub set_string : Text → ℕ → Redis → Redis
set_string k n r = record r { strings = put r.strings k (some n) }

-- `INCRBY` keeps the deadline, and its reply is the new value.
unfoldable pub incrby : Text → ℕ → Redis → ℕ × Redis
unfolding counter set_string
incrby k n r = let value = counter k r + n in (value, set_string k value r)

unfoldable pub is_set : Option ℕ → Bool
is_set none = false
is_set (some n) = true

-- The reply of `SETNX` is 1, here `true`, for the call that set the key.
unfoldable pub setnx : Text → ℕ → Redis → Bool × Redis
unfolding is_set set_string
setnx k n r = if is_set (r.strings k) then (false, r) else (true, set_string k n r)

unfoldable pub expireat : Text → ℕ → Redis → Redis
expireat k seconds r = record r { deadlines = put r.deadlines k (some (seconds * 1000)) }

unfoldable pub pexpire : ℕ → Text → ℕ → Redis → Redis
pexpire now_us k ms r = record r { deadlines = put r.deadlines k (some (now_us / 1000 + ms)) }
