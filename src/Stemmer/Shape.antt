-- ===== src/Stemmer/Shape.antt =====
-- The stem of a word is empty for stop words only, and it is never longer than the word.
use wfts.Common.{
  ltb, leb, if◌then◌else◌, leb→le, Bool-cases, length, length-append, length-take, ℕ, ◌+◌, ◌-◌, ◌≤◌,
  ◌<◌, ◌≡◌, refl, ap, ◌↔◌, ◌⊎◌, inl, inr, Bool, true, false, ◌&&◌, ◌||◌, List, [], ◌∷◌, ◌++◌, arith,
  and_left, and_right, length-reverse,
}
use mathlib.Core.List.{reverse}
use wfts.Common.Texts.{has_prefix→append}
use wfts.Stemmer.{
  SuffixRule, step1a_rules, step1b_rules, step2_rules, step3_rules, step4_rules, is_stop_word,
  measure, measure_from, has_suffix, trim_suffix, trim_rule_suffix, stem,
}

unfoldable pub all_rules : (SuffixRule → Bool) → List SuffixRule → Bool
all_rules p [] = true
all_rules p (r ∷ rs) = p r && all_rules p rs

-- What holds of every rule of a table holds of every rule that the visit of it yields.
abbrev pub Visits : (List SuffixRule → List SuffixRule) → Type 0
Visits order =
    (p : SuffixRule → Bool) (rs : List SuffixRule)
    → all_rules p rs ≡ true
    → all_rules p (order rs) ≡ true

-- A replacement is no longer than its suffix.
abbrev is_short : SuffixRule → Bool
is_short r = leb (length r.replacement) (length r.suffix)

-- A suffix of more than one byte has a replacement.
abbrev is_safe : SuffixRule → Bool
is_safe r = leb (length r.suffix) 1 || ltb 0 (length r.replacement)

tables_short :
    (all_rules is_short step1a_rules ≡ true)
    × (all_rules is_short step1b_rules ≡ true)
    × (all_rules is_short step2_rules ≡ true)
    × (all_rules is_short step3_rules ≡ true)
    × (all_rules is_short step4_rules ≡ true)
unfolding all_rules
tables_short = (refl, refl, refl, refl, refl)

step1a_safe : all_rules is_safe step1a_rules ≡ true
unfolding all_rules
step1a_safe = refl

has_suffix-le : (w p : List ℕ) → has_suffix w p ≡ true → length p ≤ length w
unfolding has_suffix
has_suffix-le w p h =
    let (r, e) = has_prefix→append (reverse w) (reverse p) h in
    let size = ap length e in
    omega (arith, size, length-append (reverse p) r, length-reverse p, length-reverse w)

length-trim_suffix :
    (w p : List ℕ) → has_suffix w p ≡ true → length (trim_suffix w p) ≡ length w - length p
unfolding trim_suffix
length-trim_suffix w p h = rw h (omega (arith, length-take (length w - length p) w))

measure-positive : (w : List ℕ) → 0 < measure w → 0 < length w
unfolding measure measure_from
measure-positive [] h = h
measure-positive (c ∷ w) h = omega arith

length-hit :
    (w : List ℕ) (r : SuffixRule) (b : Bool)
    → has_suffix w r.suffix && b ≡ true
    → length (trim_suffix w r.suffix ++ r.replacement) + length r.suffix
      ≡ length w + length r.replacement
length-hit w r b hit =
    let ends = and_left (has_suffix w r.suffix) b hit in
    omega (
      arith,
      length-append (trim_suffix w r.suffix) r.replacement,
      length-trim_suffix w r.suffix ends,
      has_suffix-le w r.suffix ends,
    )

trim_rule_suffix-le :
    (w : List ℕ) (rs : List SuffixRule) (least : ℕ)
    → all_rules is_short rs ≡ true
    → length (trim_rule_suffix w rs least) ≤ length w
unfolding trim_rule_suffix all_rules
trim_rule_suffix-le w [] least h = omega arith
trim_rule_suffix-le w (r ∷ rs) least h =
    let fits = leb least (measure (trim_suffix w r.suffix)) in
    elim (Bool-cases (has_suffix w r.suffix && fits)) [
      | inl hit ↦
          let short : length r.replacement ≤ length r.suffix =
            leb→le (length r.replacement) (length r.suffix)
              (and_left (is_short r) (all_rules is_short rs) h) in
          rw hit (omega (arith, length-hit w r fits hit, short))
      | inr miss ↦
          rw miss
            (trim_rule_suffix-le w rs least (and_right (is_short r) (all_rules is_short rs) h))
    ]

-- With a threshold of zero or more, something is left before the suffix.
trim_rule_suffix-positive :
    (w : List ℕ) (rs : List SuffixRule) (least : ℕ)
    → 0 < least
    → 0 < length w
    → 0 < length (trim_rule_suffix w rs least)
unfolding trim_rule_suffix
trim_rule_suffix-positive w [] least some_least h = h
trim_rule_suffix-positive w (r ∷ rs) least some_least h =
    let cut = trim_suffix w r.suffix in
    elim (Bool-cases (has_suffix w r.suffix && leb least (measure cut))) [
      | inl hit ↦
          let long =
            leb→le least (measure cut)
              (and_right (has_suffix w r.suffix) (leb least (measure cut)) hit) in
          rw hit (
            omega
              (arith, length-append cut r.replacement, measure-positive cut (omega (arith, long))))
      | inr miss ↦ rw miss (trim_rule_suffix-positive w rs least some_least h)
    ]

safe_or_short : (a b : ℕ) → leb a 1 || ltb 0 b ≡ true → (a ≤ 1) ⊎ (0 < b)
safe_or_short a b h = elim (Bool-cases (leb a 1)) [
  | inl short ↦ inl (ground (arith, short))
  | inr long ↦ inr (ground (arith, long, h))
]

trim_rule_suffix-safe :
    (w : List ℕ) (rs : List SuffixRule) (least : ℕ)
    → all_rules is_safe rs ≡ true
    → 2 < length w
    → 0 < length (trim_rule_suffix w rs least)
unfolding trim_rule_suffix all_rules
trim_rule_suffix-safe w [] least safe h = omega arith
trim_rule_suffix-safe w (r ∷ rs) least safe h =
    let fits = leb least (measure (trim_suffix w r.suffix)) in
    elim (Bool-cases (has_suffix w r.suffix && fits)) [
      | inl hit ↦
          let size = length-hit w r fits hit in
          let known = and_left (is_safe r) (all_rules is_safe rs) safe in
          rw hit (elim (safe_or_short (length r.suffix) (length r.replacement) known) [
            | inl short ↦ omega (arith, size, short)
            | inr more ↦ omega (arith, length-append (trim_suffix w r.suffix) r.replacement, more)
          ])
      | inr miss ↦
          rw miss
            (trim_rule_suffix-safe w rs least (and_right (is_safe r) (all_rules is_safe rs) safe) h)
    ]

picked-le :
    (stop short : Bool) (w v : List ℕ)
    → length v ≤ length w
    → length (if stop then [] else if short then w else v) ≤ length w
picked-le true short w v h = omega arith
picked-le false true w v h = omega arith
picked-le false false w v h = h

picked-empty_iff :
    (stop short : Bool) (w v : List ℕ)
    → 0 < length w
    → (short ≡ false → 0 < length v)
    → (length (if stop then [] else if short then w else v) ≡ 0) ↔ (stop ≡ true)
picked-empty_iff true short w v h k = (λ e. refl, λ e. refl)
picked-empty_iff false true w v h k = (λ e. absurd (omega arith), λ e. cc)
picked-empty_iff false false w v h k = (λ e. absurd (omega (arith, e, k refl)), λ e. cc)

-- A word that is no stop word and is not empty has a stem; a stop word has none. The order in which
-- the rules of a table are visited does not matter for it.
pub stem-empty_iff :
    (order : List SuffixRule → List SuffixRule) (w : List ℕ)
    → Visits order
    → 0 < length w
    → (length (stem order w) ≡ 0) ↔ (is_stop_word w ≡ true)
unfolding stem
stem-empty_iff order w visits h =
    let w1 = trim_rule_suffix w (order step1a_rules) 0 in
    let w2 = trim_rule_suffix w1 (order step1b_rules) 1 in
    let w3 = trim_rule_suffix w2 (order step2_rules) 1 in
    let w4 = trim_rule_suffix w3 (order step3_rules) 1 in
    let left : leb (length w) 2 ≡ false → 0 < length (trim_rule_suffix w4 (order step4_rules) 2) =
      λ long.
        let safe = visits is_safe step1a_rules step1a_safe in
        let p1 = trim_rule_suffix-safe w (order step1a_rules) 0 safe (ground (arith, long)) in
        let p2 = trim_rule_suffix-positive w1 (order step1b_rules) 1 (omega arith) p1 in
        let p3 = trim_rule_suffix-positive w2 (order step2_rules) 1 (omega arith) p2 in
        let p4 = trim_rule_suffix-positive w3 (order step3_rules) 1 (omega arith) p3 in
        trim_rule_suffix-positive w4 (order step4_rules) 2 (omega arith) p4 in
    picked-empty_iff (is_stop_word w) (leb (length w) 2) w
      (trim_rule_suffix w4 (order step4_rules) 2) h left

-- The stem of a word is not longer than the word, in whatever order the rules of a table are visited.
pub length-stem :
    (order : List SuffixRule → List SuffixRule) (w : List ℕ)
    → Visits order
    → length (stem order w) ≤ length w
unfolding stem
length-stem order w visits =
    let (s1, s2, s3, s4, s5) = tables_short in
    let w1 = trim_rule_suffix w (order step1a_rules) 0 in
    let w2 = trim_rule_suffix w1 (order step1b_rules) 1 in
    let w3 = trim_rule_suffix w2 (order step2_rules) 1 in
    let w4 = trim_rule_suffix w3 (order step3_rules) 1 in
    let l1 = trim_rule_suffix-le w (order step1a_rules) 0 (visits is_short step1a_rules s1) in
    let l2 = trim_rule_suffix-le w1 (order step1b_rules) 1 (visits is_short step1b_rules s2) in
    let l3 = trim_rule_suffix-le w2 (order step2_rules) 1 (visits is_short step2_rules s3) in
    let l4 = trim_rule_suffix-le w3 (order step3_rules) 1 (visits is_short step3_rules s4) in
    let l5 = trim_rule_suffix-le w4 (order step4_rules) 2 (visits is_short step4_rules s5) in
    picked-le (is_stop_word w) (leb (length w) 2) w (trim_rule_suffix w4 (order step4_rules) 2)
      (omega (arith, l1, l2, l3, l4, l5))
