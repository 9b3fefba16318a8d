-- ===== src/Pool/Tests.antt =====
-- Two pages of counters.
use quotaguard.Prelude.{
  List, Option, Text, [], arith, codes, false, if◌then◌else◌, inl, refl, some, text_eq, ℕ, ◌<◌,
  ◌==◌, ◌∷◌, ◌≡◌,
}
use quotaguard.Errors.{Result, ok}
use quotaguard.Redis.{empty, put, set_string}
use quotaguard.Pool.{
  Pool, Scanned, add_page, after_page, after_read, get_value, quota_pattern, read_values, scan_from,
  scan_quota_keys, with_value,
}
use quotaguard.Pool.Scans.{Descends, first_page, later_page}
use quotaguard.Pool.Complete.{Finds, scan_quota_keys-Finds}

abbrev first_name : Text
first_name = codes "qg:q:key_1:2026-07"

abbrev second_name : Text
second_name = codes "qg:q:key_2:2026-07"

abbrev two_pages : ℕ → Option (ℕ × List Text)
two_pages cursor =
    if cursor == 0 then some (7, first_name ∷ []) else some (0, second_name ∷ first_name ∷ [])

abbrev two_page_pool : Pool
two_page_pool = record {
  scan = λ pattern. two_pages;
  lost = λ key. false;
  redis = set_string second_name 5 (set_string first_name 3 empty);
}

pages_left : ℕ → ℕ
pages_left cursor = if cursor == 0 then 1 else 0

two_pages-Descends : Descends two_page_pool quota_pattern pages_left
unfolding pages_left
two_pages-Descends cursor following keys e more = ground arith

scan_test :
    scan_quota_keys 2 two_page_pool
    ≡ some (ok ((first_name, 3) ∷ (second_name, 5) ∷ (first_name, 3) ∷ []))
unfolding scan_quota_keys scan_from after_page after_read add_page read_values get_value with_value
    set_string put text_eq
scan_test = refl

second_there : two_page_pool.redis.strings second_name ≡ some 5
unfolding set_string put text_eq
second_there = refl

enough : pages_left 0 < 2
unfolding pages_left
enough = omega arith

scan_quota_keys-Finds_example :
    (r : Result (List Scanned)) × (scan_quota_keys 2 two_page_pool ≡ some r) × Finds second_name 5 r
scan_quota_keys-Finds_example =
    scan_quota_keys-Finds two_page_pool pages_left 2 (second_name ∷ first_name ∷ []) second_name 5
      two_pages-Descends enough
      (later_page 0 7 (first_name ∷ []) (second_name ∷ first_name ∷ []) refl refl
        (first_page 7 0 (second_name ∷ first_name ∷ []) refl))
      (inl refl) second_there
