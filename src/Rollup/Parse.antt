-- ===== src/Rollup/Parse.antt =====
-- The names of the quota counters and of the soft threshold flags, read back from the scans.
use quotaguard.Prelude.{
  ==_iff, All, Bool-cases, Lacks, List, Text, [], ap, arith, codes, inl, inr, join, onto_head, refl,
  some, split, split-append, split_last, sym, text_eq, text_eq_sound, ℕ, ◌==◌, ◌↔◌, ◌∙◌, ◌∷◌, ◌≡◌,
  ◌≢◌,
}
use quotaguard.Rollup.{colon, counter_key, key_of_parts, parse_quota_key}

join-onto_head : (sep c : ℕ) (ps : List Text) → join sep (onto_head c ps) ≡ c ∷ join sep ps
join-onto_head sep c [] = refl
join-onto_head sep c (p ∷ []) = refl
join-onto_head sep c (p ∷ q ∷ ps) = refl

onto_head-cons : (c : ℕ) (ps : List Text) → onto_head c ps ≢ []
onto_head-cons c [] e = cc
onto_head-cons c (p ∷ ps) e = cc

split-cons : (sep : ℕ) (s : Text) → split sep s ≢ []
unfolding split
split-cons sep [] e = cc
split-cons sep (c ∷ s) e = elim (Bool-cases (c == sep)) [
  | inl same ↦ ground arith
  | inr other ↦ onto_head-cons c (split sep s) (rw other at e)
]

join-empty : (sep : ℕ) (ps : List Text) → ps ≢ [] → join sep ([] ∷ ps) ≡ sep ∷ join sep ps
join-empty sep [] h = absurd (h refl)
join-empty sep (p ∷ ps) h = refl

join-split : (sep : ℕ) (s : Text) → join sep (split sep s) ≡ s
unfolding split
join-split sep [] = refl
join-split sep (c ∷ s) = elim (Bool-cases (c == sep)) [
  | inl same ↦
      let e : c ≡ sep = (==_iff c sep).0 same in
      rw same
        (join-empty sep (split sep s) (split-cons sep s) ∙ rw e (ap (◌∷◌ sep) (join-split sep s)))
  | inr other ↦ rw other (join-onto_head sep c (split sep s) ∙ ap (◌∷◌ c) (join-split sep s))
]

onto_head-Lacks :
    (sep c : ℕ) (ps : List Text) → c ≢ sep → All (Lacks sep) ps → All (Lacks sep) (onto_head c ps)
onto_head-Lacks sep c [] d h = ((d, tt), tt)
onto_head-Lacks sep c (p ∷ ps) d h = ((d, h.0), h.1)

split-Lacks : (sep : ℕ) (s : Text) → All (Lacks sep) (split sep s)
unfolding split
split-Lacks sep [] = (tt, tt)
split-Lacks sep (c ∷ s) = elim (Bool-cases (c == sep)) [
  | inl same ↦ rw same (tt, split-Lacks sep s)
  | inr other ↦
      rw other (onto_head-Lacks sep c (split sep s) (λ e. ground arith) (split-Lacks sep s))
]

key_of_parts_sound :
    (letter : Text) (ps : List Text) (key_id month : Text)
    → key_of_parts letter ps ≡ some (key_id, month)
    → ps ≡ codes "qg" ∷ letter ∷ key_id ∷ month ∷ []
unfolding key_of_parts
key_of_parts_sound letter [] key_id month h = cc
key_of_parts_sound letter (p ∷ []) key_id month h = cc
key_of_parts_sound letter (p ∷ q ∷ []) key_id month h = cc
key_of_parts_sound letter (p ∷ q ∷ k ∷ []) key_id month h = cc
key_of_parts_sound letter (p ∷ q ∷ k ∷ m ∷ []) key_id month h =
    ground (arith, text_eq_sound p (codes "qg"), text_eq_sound q letter)
key_of_parts_sound letter (p ∷ q ∷ k ∷ m ∷ x ∷ ps) key_id month h = cc

split-counter_key :
    (letter key_id month : Text)
    → Lacks colon letter
    → Lacks colon key_id
    → Lacks colon month
    → split colon (counter_key letter key_id month) ≡ codes "qg" ∷ letter ∷ key_id ∷ month ∷ []
unfolding counter_key
split-counter_key letter key_id month hl hk hm =
    split-append colon (codes "qg") _ (omega arith, (omega arith, tt))
    ∙ ap (◌∷◌ (codes "qg")) (
        split-append colon letter _ hl
        ∙ ap (◌∷◌ letter)
            (split-append colon key_id month hk ∙ ap (◌∷◌ key_id) (split_last colon month hm)))

parts_lack :
    (key_id month : Text) (ps : List Text)
    → ps ≡ codes "qg" ∷ codes "q" ∷ key_id ∷ month ∷ []
    → All (Lacks colon) ps
    → All (Lacks colon) (codes "qg" ∷ codes "q" ∷ key_id ∷ month ∷ [])
parts_lack key_id month ps e h = rw e at h

read_only :
    (key key_id month : Text)
    → key_of_parts (codes "q") (split colon key) ≡ some (key_id, month)
    → (key ≡ counter_key (codes "q") key_id month) × Lacks colon key_id × Lacks colon month
unfolding counter_key
read_only key key_id month e =
    let parts = key_of_parts_sound (codes "q") (split colon key) key_id month e in
    let all_lack : All (Lacks colon) (split colon key) = split-Lacks colon key in
    let (_, (_, (hk, (hm, _)))) = parts_lack key_id month (split colon key) parts all_lack in
    (sym (join-split colon key) ∙ ap (join colon) parts, hk, hm)

read_back :
    (key_id month : Text)
    → Lacks colon key_id
    → Lacks colon month
    → key_of_parts (codes "q") (split colon (counter_key (codes "q") key_id month))
      ≡ some (key_id, month)
unfolding key_of_parts text_eq
read_back key_id month hk hm =
    ap (key_of_parts (codes "q"))
      (split-counter_key (codes "q") key_id month (omega arith, tt) hk hm)

-- What `parse_quota_key` reads from a counter's name is its key and its month, exactly: it reads `(k, m)`
-- from a text if and only if the text is `qg:q:k:m` and neither `k` nor `m` has a colon.
pub parse_quota_key_iff :
    (key key_id month : Text)
    → (parse_quota_key key ≡ some (key_id, month))
      ↔ ((key ≡ counter_key (codes "q") key_id month) × Lacks colon key_id × Lacks colon month)
unfolding parse_quota_key
parse_quota_key_iff key key_id month =
    (read_only key key_id month, λ (e, hk, hm). rw e (read_back key_id month hk hm))
