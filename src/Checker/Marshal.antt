-- ===== src/Checker/Marshal.antt =====
-- The round trip of the script's reply, and the numbers that the script is given.
use quotaguard.KeyCache.{ResolvedKey}
use native.Mathlib.Nat.{mul-le-mul_left}
use quotaguard.Prelude.{
  List, Text, [], arith, length, none, pos, refl, some, ℕ, ◌*◌, ◌+◌, ◌<◌, ◌^◌, ◌∷◌, ◌≡◌, ◌≢◌, ◌≤◌,
}
use quotaguard.Models.{
  burst_capacity, burst_refill_per_sec, monthly_quota, sustained_limit, sustained_window_seconds,
}
use quotaguard.Errors.{error_response, handle, ok, raise, status_code}
use quotaguard.Admission.{Decision, utok}
use quotaguard.Checker.{
  Reply, ScriptResult, decode, decode_tuple, flag_reply, int_of, layer_text, number, reply,
  script_argv, soft_threshold, text_of, truth, unreadable,
}

-- The decision under the names of `ScriptResult`.
abbrev pub named : Decision → ScriptResult
named v = record {
  allowed = v.allowed;
  deny_layer = layer_text v.deny_layer;
  burst_limit = pos v.b_limit;
  burst_remaining = pos v.b_remaining;
  burst_reset = v.b_reset;
  sustained_limit = pos v.s_limit;
  sustained_remaining = pos v.s_remaining;
  sustained_reset = pos v.s_reset;
  quota_limit = pos v.q_limit;
  quota_used = pos v.q_used;
  quota_remaining = pos v.q_remaining;
  quota_reset = pos v.q_reset;
  soft_crossed = v.soft_crossed;
  month = v.month;
  retry_after = pos v.retry_after;
}

-- Reading back what the script replies gives every field of its decision, under its name.
pub decode-reply : (v : Decision) → decode (some (reply v)) ≡ ok (named v)
unfolding decode decode_tuple reply flag_reply number int_of text_of truth
decode-reply v = ground arith

decode_tuple-length : (raw : List Reply) → length raw ≢ 15 → decode_tuple raw ≡ raise unreadable
unfolding decode_tuple
decode_tuple-length
      (r0 ∷ r1 ∷ r2 ∷ r3 ∷ r4 ∷ r5 ∷ r6 ∷ r7 ∷ r8 ∷ r9 ∷ r10 ∷ r11 ∷ r12 ∷ r13 ∷ r14 ∷ []) h =
    absurd (h refl)
decode_tuple-length _ h = refl

-- A reply that is read has 15 elements; a missing one, and one of any other length, is the internal
-- error, which the handlers answer with status 500.
pub decode-length :
    (raw : List Reply)
    → length raw ≢ 15
    → (decode (some raw) ≡ raise unreadable)
      × (decode none ≡ raise unreadable)
      × ((handle unreadable).status ≡ 500)
unfolding decode handle error_response status_code
decode-length raw h = (decode_tuple-length raw h, refl, refl)

-- The bounds that app/schemas/plans.py puts on a plan's numbers, and so on a resolved key's.
pub record InBounds (key : ResolvedKey) : Type 0 where
  pub capacity_range : (1 ≤ key.limit burst_capacity) × (key.limit burst_capacity ≤ 1_000_000)
  pub refill_range :
      (1 ≤ key.limit burst_refill_per_sec) × (key.limit burst_refill_per_sec ≤ 100_000)
  pub sustained_range : (1 ≤ key.limit sustained_limit) × (key.limit sustained_limit ≤ 1_000_000)
  pub window_range :
      (1 ≤ key.limit sustained_window_seconds) × (key.limit sustained_window_seconds ≤ 86_400)
  pub quota_range : (1 ≤ key.limit monthly_quota) × (key.limit monthly_quota ≤ 1_000_000_000_000)
  pub soft_pct : key.quota_soft_pct ≤ 100

soft_threshold_bounds :
    (key : ResolvedKey)
    → InBounds key
    → let s = soft_threshold key in
      let hard = key.limit monthly_quota in
      (s ≤ hard)
      × (s * 100 ≤ hard * key.quota_soft_pct)
      × (hard * key.quota_soft_pct < (s + 1) * 100)
unfolding soft_threshold
soft_threshold_bounds key b = ground (arith, mul-le-mul_left (key.limit monthly_quota) b.soft_pct)

-- What the script is given for a key within the bounds and a cost of at most 1000: the capacity and the
-- rate in millionths, every number below 2 ^ 53, the rate and the limits not 0, and the soft threshold is the whole part of the percentage of the quota, never
-- above the quota.
pub script_argv_bounds :
    (key : ResolvedKey) (cost : ℕ) (id : Text)
    → InBounds key
    → cost ≤ 1000
    → let a = script_argv key cost id in
      (a.cap_utok ≡ key.limit burst_capacity * 1_000_000)
      × (a.cap_utok < 2 ^ 53)
      × (a.rate_utok ≡ key.limit burst_refill_per_sec * 1_000_000)
      × ((0 < a.rate_utok) × (a.rate_utok < 2 ^ 53))
      × ((0 < a.sustained_limit) × (a.sustained_limit < 2 ^ 53) × (a.window_us < 2 ^ 53))
      × ((0 < a.quota_hard) × (a.quota_hard < 2 ^ 53))
      × (a.cost * utok < 2 ^ 53)
      × (a.quota_soft ≤ a.quota_hard)
      × (a.quota_soft * 100 ≤ a.quota_hard * key.quota_soft_pct)
      × (a.quota_hard * key.quota_soft_pct < (a.quota_soft + 1) * 100)
unfolding script_argv soft_threshold
script_argv_bounds key cost id b hc = let soft = soft_threshold_bounds key b in omega (arith, soft)
