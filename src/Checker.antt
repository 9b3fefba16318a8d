-- ===== src/Checker.antt =====
-- app/services/checker.py: what the script is called with, how its reply is read, and the headers.
pub mod Marshal
pub mod Selected
pub mod Refused
pub mod Service
mod Tests
use quotaguard.Redis.{Redis, Time}
use quotaguard.Prelude.{
  Bool, List, Option, Text, [], ceil_div, codes, decimal, false, if◌then◌else◌, leb, ltb, none, not,
  parse_digits, pos, show_int, some, split, text_eq, true, zero, ℕ, ℤ, ◌%◌, ◌&&◌, ◌*◌, ◌++◌, ◌/◌,
  ◌==◌, ◌||◌, ◌∷◌,
}
use quotaguard.Models.{
  burst_capacity, burst_refill_per_sec, monthly_quota, sustained_limit, sustained_window_seconds,
}
use quotaguard.Errors.{
  Exception, Result, app, internal, key_error, ok, raise, type_error, value_error, zero_division,
  ◌>>=◌,
}
use quotaguard.KeyCache.{ResolvedKey}
use quotaguard.Admission.{
  Argv, Decision, Doubles, Keys, Layer, burst, check, quota, sustained, utok,
}

-- An element of a reply: an integer, a byte string, or nil.
pub data Reply : Type 0 where
  int : ℤ → Reply
  bytes : Text → Reply
  nil : Reply

pub record ScriptResult : Type 0 where
  pub allowed : Bool
  pub deny_layer : Text
  pub burst_limit : ℤ
  pub burst_remaining : ℤ
  pub burst_reset : ℤ
  pub sustained_limit : ℤ
  pub sustained_remaining : ℤ
  pub sustained_reset : ℤ
  pub quota_limit : ℤ
  pub quota_used : ℤ
  pub quota_remaining : ℤ
  pub quota_reset : ℤ
  pub soft_crossed : Bool
  pub month : Text
  pub retry_after : ℤ

-- `bool(value)`
unfoldable pub truth : Reply → Bool
truth (int (pos zero)) = false
truth (int _) = true
truth (bytes []) = false
truth (bytes (c ∷ s)) = true
truth nil = false

unfoldable pub text_of : Reply → Text
text_of (int z) = show_int z
text_of (bytes s) = s
text_of nil = codes "None"

unfoldable pub digits_or_raise : Option ℕ → Result ℤ
digits_or_raise none = raise value_error
digits_or_raise (some n) = ok (pos n)

-- `int(value)`
unfoldable pub int_of : Reply → Result ℤ
int_of (int z) = ok z
int_of (bytes s) = digits_or_raise (parse_digits s)
int_of nil = raise type_error

abbrev pub unreadable : Exception
unreadable = app (internal (codes "The admission decision could not be read."))

-- The reply of 15 elements; any other number of them is refused.
unfoldable pub decode_tuple : List Reply → Result ScriptResult
decode_tuple (r0 ∷ r1 ∷ r2 ∷ r3 ∷ r4 ∷ r5 ∷ r6 ∷ r7 ∷ r8 ∷ r9 ∷ r10 ∷ r11 ∷ r12 ∷ r13 ∷ r14 ∷ []) =
    do
      b_limit ← int_of r2
      b_remaining ← int_of r3
      b_reset ← int_of r4
      s_limit ← int_of r5
      s_remaining ← int_of r6
      s_reset ← int_of r7
      q_limit ← int_of r8
      q_used ← int_of r9
      q_remaining ← int_of r10
      q_reset ← int_of r11
      retry ← int_of r14
      ok (record {
        allowed = truth r0;
        deny_layer = text_of r1;
        burst_limit = b_limit;
        burst_remaining = b_remaining;
        burst_reset = b_reset;
        sustained_limit = s_limit;
        sustained_remaining = s_remaining;
        sustained_reset = s_reset;
        quota_limit = q_limit;
        quota_used = q_used;
        quota_remaining = q_remaining;
        quota_reset = q_reset;
        soft_crossed = truth r12;
        month = text_of r13;
        retry_after = retry;
      })
decode_tuple _ = raise unreadable

unfoldable pub decode : Option (List Reply) → Result ScriptResult
decode none = raise unreadable
decode (some raw) = decode_tuple raw

unfoldable pub script_keys : Text → Text → Keys
script_keys key_id resource = record {
  bucket = codes "qg:b:" ++ key_id ++ codes ":" ++ resource;
  window = codes "qg:s:" ++ key_id ++ codes ":" ++ resource;
  quota_prefix = codes "qg:q:" ++ key_id ++ codes ":";
  flag_prefix = codes "qg:f:" ++ key_id ++ codes ":";
}

unfoldable pub soft_threshold : ResolvedKey → ℕ
soft_threshold key =
    if ltb 0 key.quota_soft_pct then key.limit monthly_quota * key.quota_soft_pct / 100 else 0

unfoldable pub script_argv : ResolvedKey → ℕ → Text → Argv
script_argv key cost request_id = record {
  cap_utok = key.limit burst_capacity * utok;
  rate_utok = key.limit burst_refill_per_sec * utok;
  sustained_limit = key.limit sustained_limit;
  window_us = key.limit sustained_window_seconds * utok;
  quota_hard = key.limit monthly_quota;
  quota_soft = soft_threshold key;
  cost = cost;
  request_id = request_id;
}

unfoldable pub burst_window_seconds : ResolvedKey → ℕ
burst_window_seconds key = ceil_div (key.limit burst_capacity) (key.limit burst_refill_per_sec)

unfoldable pub is_leap : ℕ → Bool
is_leap y = y % 4 == 0 && (not (y % 100 == 0) || y % 400 == 0)

-- `calendar.monthrange(year, month)[1]`, for a month from 1 to 12
unfoldable pub days_in_month : ℕ → ℕ → ℕ
days_in_month y m =
    if m == 2
    then (if is_leap y then 29 else 28)
    else if m == 4 || m == 6 || m == 9 || m == 11
    then 30
    else 31

unfoldable pub month_range : Option ℕ → Option ℕ → Result ℕ
month_range (some y) (some m) =
    if leb 1 m && leb m 12 then ok (days_in_month y m) else raise value_error
month_range _ _ = raise value_error

unfoldable pub month_days : List Text → Result ℕ
month_days (year ∷ month ∷ []) = month_range (parse_digits year) (parse_digits month)
month_days _ = raise value_error

unfoldable pub month_window_seconds : Text → Result ℕ
month_window_seconds month = do days ← month_days (split b'-' month); ok (days * 86400)

unfoldable pub policy : ℕ → ℕ → Text
policy amount window = decimal amount ++ codes ";w=" ++ decimal window

unfoldable pub policies : ResolvedKey → ℕ → Text
policies key month_seconds =
    policy (key.limit burst_capacity) (burst_window_seconds key)
    ++ codes ", "
    ++ policy (key.limit sustained_limit) (key.limit sustained_window_seconds)
    ++ codes ", "
    ++ policy (key.limit monthly_quota) month_seconds

unfoldable pub policy_header : ResolvedKey → Text → Result Text
policy_header key month = do seconds ← month_window_seconds month; ok (policies key seconds)

-- A layer in the header's choice: limit, remaining, reset, and the window that breaks a tie.
pub record Shown : Type 0 where
  pub limit : ℤ
  pub remaining : ℤ
  pub reset : ℤ

pub record Candidate : Type 0 where
  pub shown : Shown
  pub window : ℕ

unfoldable pub burst_shown : ScriptResult → Shown
burst_shown r = record {
  limit = r.burst_limit;
  remaining = r.burst_remaining;
  reset = r.burst_reset;
}

unfoldable pub sustained_shown : ScriptResult → Shown
sustained_shown r = record {
  limit = r.sustained_limit;
  remaining = r.sustained_remaining;
  reset = r.sustained_reset;
}

unfoldable pub quota_shown : ScriptResult → Shown
quota_shown r = record {
  limit = r.quota_limit;
  remaining = r.quota_remaining;
  reset = r.quota_reset;
}

-- `layers[result.deny_layer]`
unfoldable pub layer_named : ScriptResult → Text → Result Shown
layer_named r name =
    if text_eq name (codes "burst")
    then ok (burst_shown r)
    else if text_eq name (codes "sustained")
    then ok (sustained_shown r)
    else if text_eq name (codes "quota")
    then ok (quota_shown r)
    else raise key_error

unfoldable pub is_zero : ℤ → Bool
is_zero (pos zero) = true
is_zero _ = false

-- Whether one double quotient remaining / limit is less than another.
pub record Ratios : Type 0 where
  pub less : Shown → Shown → Bool

-- The order of the tuples (remaining / limit, window).
unfoldable pub tighter : Ratios → Candidate → Candidate → Bool
tighter q a b =
    if q.less a.shown b.shown
    then true
    else if q.less b.shown a.shown
    then false
    else ltb a.window b.window

-- `min` keeps the first of equals.
unfoldable pub tightest : Ratios → Candidate → List Candidate → Candidate
tightest q best [] = best
tightest q best (c ∷ cs) = tightest q (if tighter q c best then c else best) cs

-- The choice among the three layers, of which the last one's window is given.
unfoldable pub selected_layer : Ratios → ResolvedKey → ScriptResult → ℕ → Result Shown
selected_layer q key r month_seconds =
    let burst_layer : Candidate = record {
      shown = burst_shown r;
      window = burst_window_seconds key;
    } in
    let sustained_layer : Candidate = record {
      shown = sustained_shown r;
      window = key.limit sustained_window_seconds;
    } in
    let quota_layer : Candidate = record { shown = quota_shown r; window = month_seconds } in
    if not r.allowed
    then layer_named r r.deny_layer
    else if is_zero r.burst_limit || is_zero r.sustained_limit || is_zero r.quota_limit
    then raise zero_division
    else ok (tightest q burst_layer (sustained_layer ∷ quota_layer ∷ [])).shown

unfoldable pub selected_policy : Ratios → ResolvedKey → ScriptResult → Result Shown
selected_policy q key r = do seconds ← month_window_seconds r.month; selected_layer q key r seconds

-- `CheckOut`, of app/schemas/check.py, with the layers of a decision that was made.
pub record CheckOut : Type 0 where
  pub allowed : Bool
  pub reason : Option Text
  pub degraded : Bool
  pub shown : Option Shown
  pub retry_after : Option ℤ
  pub headers : List (Text × Text)
  pub layers : Option ScriptResult

unfoldable pub rate_limit_header : Shown → Text
rate_limit_header s =
    codes "limit="
    ++ show_int s.limit
    ++ codes ", remaining="
    ++ show_int s.remaining
    ++ codes ", reset="
    ++ show_int s.reset

unfoldable pub reason_of : Text → Option Text
reason_of [] = none
reason_of (c ∷ s) = some (c ∷ s)

unfoldable pub headers_of : ScriptResult → Shown → Text → List (Text × Text)
headers_of r s policies =
    (codes "RateLimit", rate_limit_header s)
    ∷ (codes "RateLimit-Policy", policies)
    ∷ (if r.allowed then [] else (codes "Retry-After", show_int r.retry_after) ∷ [])

unfoldable pub to_out : Ratios → ResolvedKey → ScriptResult → Result CheckOut
to_out q key r = do
  s ← selected_policy q key r
  policies ← policy_header key r.month
  ok (record {
    allowed = r.allowed;
    reason = reason_of r.deny_layer;
    degraded = false;
    shown = some s;
    retry_after = if r.allowed then none else some r.retry_after;
    headers = headers_of r s policies;
    layers = some r;
  })

-- The script's side of the reply: Redis turns its numbers to integers and its texts to byte strings.
unfoldable pub layer_text : Option Layer → Text
layer_text none = []
layer_text (some burst) = codes "burst"
layer_text (some sustained) = codes "sustained"
layer_text (some quota) = codes "quota"

unfoldable pub flag_reply : Bool → Reply
flag_reply b = int (pos (if b then 1 else 0))

unfoldable pub number : ℕ → Reply
number n = int (pos n)

unfoldable pub reply : Decision → List Reply
reply v =
    flag_reply v.allowed
    ∷ bytes (layer_text v.deny_layer)
    ∷ number v.b_limit
    ∷ number v.b_remaining
    ∷ int v.b_reset
    ∷ number v.s_limit
    ∷ number v.s_remaining
    ∷ number v.s_reset
    ∷ number v.q_limit
    ∷ number v.q_used
    ∷ number v.q_remaining
    ∷ number v.q_reset
    ∷ flag_reply v.soft_crossed
    ∷ bytes v.month
    ∷ number v.retry_after
    ∷ []

-- `run_check`: one call of the script, while the server is reachable, and its reply decoded.
unfoldable pub run_check :
    Doubles → ResolvedKey → Text → ℕ → Text → Time → Redis → Result ScriptResult × Redis
run_check d key resource cost request_id time r =
    let (v, after) =
      check d (script_keys key.key_id resource) (script_argv key cost request_id) time r in
    (decode (some (reply v)), after)
