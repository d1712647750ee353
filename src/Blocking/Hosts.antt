-- ===== src/Blocking/Hosts.antt =====
-- The hosts of a filter list are refused, with every host below them.
use wfts.Common.{
  ◌==◌, Bool-cases, length, take, drop, length-append, take-append, Result, err, ℕ, suc, ◌-◌, ◌≡◌,
  refl, sym, ap, ◌∙◌, ◌⊎◌, inl, inr, Bool, true, false, ◌&&◌, ◌||◌, List, [], ◌∷◌, ◌++◌, arith,
}
use mathlib.Core.List.{reverse, reverse-append, reverse-cons, append_assoc, append-nil}
use wfts.Common.Texts.{codes, has_prefix, has_prefix-append, trim_space, split_from, split_lines}
use wfts.Blocking.{
  Bloom, empty_bloom, add, contain, has_suffix, upload_line, upload_lines, upload_filter, is_dot,
  join_dots, blocked_from, is_blocked, RoundTripError, blocked, round_trip,
}
use wfts.Blocking.Filter.{
  IsFull, Added, contain-Added, add-Added, Added-add, add-IsFull, empty_bloom-IsFull,
}

-- A line of the list for the host `d`.
abbrev pub rule_line : List ℕ → List ℕ
rule_line d = 124 ∷ 124 ∷ d ++ 94 ∷ []

has_suffix-append : (s p : List ℕ) → has_suffix (s ++ p) p ≡ true
unfolding has_suffix
has_suffix-append s p = rw (reverse-append s p) (has_prefix-append (reverse p) (reverse s))

upload_line-rule :
    (fnv : List ℕ → ℕ) (b : Bloom) (line d : List ℕ)
    → trim_space line ≡ rule_line d
    → upload_line fnv b line ≡ add fnv b d
unfolding upload_line has_prefix
upload_line-rule fnv b line d e =
    let inner = take-append d (94 ∷ []) (length d) refl in
    let suffix = has_suffix-append (124 ∷ 124 ∷ d) (94 ∷ []) in
    let size : length (d ++ 94 ∷ []) ≡ suc (length d) = omega (arith, length-append d (94 ∷ [])) in
    let some_bytes : (suc (suc (suc (length d))) == 0) ≡ false = ground arith in
    let cut : suc (suc (suc (length d))) - 1 ≡ suc (suc (length d)) = omega arith in
    rw e (rw (suffix, size) (rw (some_bytes, cut) (ap (add fnv b) inner)))

upload_line-cases :
    (fnv : List ℕ → ℕ) (b : Bloom) (line : List ℕ)
    → (upload_line fnv b line ≡ b) ⊎ ((t : List ℕ) × (upload_line fnv b line ≡ add fnv b t))
unfolding upload_line
upload_line-cases fnv b line =
    let trimmed = trim_space line in
    let inner = drop 2 (take (length trimmed - 1) trimmed) in
    elim (Bool-cases
      (length trimmed == 0 || has_prefix trimmed (codes "!") || has_prefix trimmed (codes "@@"))) [
        | inl skip ↦ inl (rw skip refl)
        | inr more ↦
            elim (Bool-cases (has_prefix trimmed (codes "||") && has_suffix trimmed (codes "^"))) [
              | inl rule ↦ inr (inner, rw (more, rule) refl)
              | inr other ↦ inl (rw (more, other) refl)
            ]
      ]

upload_line-Added :
    (fnv : List ℕ → ℕ) (b : Bloom) (line d : List ℕ)
    → Added fnv b d
    → Added fnv (upload_line fnv b line) d
upload_line-Added fnv b line d h = elim (upload_line-cases fnv b line) [
  | inl same ↦ rw same h
  | inr (t, more) ↦ rw more (Added-add fnv b d t h)
]

upload_line-IsFull :
    (fnv : List ℕ → ℕ) (b : Bloom) (line : List ℕ) → IsFull b → IsFull (upload_line fnv b line)
upload_line-IsFull fnv b line h = elim (upload_line-cases fnv b line) [
  | inl same ↦ rw same h
  | inr (t, more) ↦ rw more (add-IsFull fnv b t h)
]

upload_lines-Added :
    (fnv : List ℕ → ℕ) (b : Bloom) (ls : List (List ℕ)) (d : List ℕ)
    → Added fnv b d
    → Added fnv (upload_lines fnv b ls) d
unfolding upload_lines
upload_lines-Added fnv b [] d h = h
upload_lines-Added fnv b (l ∷ ls) d h =
    upload_lines-Added fnv (upload_line fnv b l) ls d (upload_line-Added fnv b l d h)

upload_lines-rule :
    (fnv : List ℕ → ℕ) (b : Bloom) (earlier later : List (List ℕ)) (line d : List ℕ)
    → IsFull b
    → trim_space line ≡ rule_line d
    → Added fnv (upload_lines fnv b (earlier ++ line ∷ later)) d
unfolding upload_lines
upload_lines-rule fnv b [] later line d full e =
    let first : Added fnv (upload_line fnv b line) d =
      rw (upload_line-rule fnv b line d e) (add-Added fnv b d full) in
    upload_lines-Added fnv (upload_line fnv b line) later d first
upload_lines-rule fnv b (l ∷ ls) later line d full e =
    upload_lines-rule fnv (upload_line fnv b l) ls later line d (upload_line-IsFull fnv b l full) e

-- The pieces joined again, and the host that each suffix of them joins to.
split_from-cons :
    (w s : List ℕ) → (p : List ℕ) × (ps : List (List ℕ)) × (split_from is_dot w s ≡ p ∷ ps)
unfolding split_from
split_from-cons w [] = (reverse w, [], refl)
split_from-cons w (c ∷ s) = elim (Bool-cases (is_dot c)) [
  | inl dot ↦ (reverse w, split_from is_dot [] s, rw dot refl)
  | inr other ↦ rw other (split_from-cons (c ∷ w) s)
]

join_dots-split_from : (w s : List ℕ) → join_dots (split_from is_dot w s) ≡ reverse w ++ s
unfolding split_from join_dots
join_dots-split_from w [] = sym (append-nil (reverse w))
join_dots-split_from w (c ∷ s) = elim (Bool-cases (is_dot c)) [
  | inl dot ↦
      let (p, ps, cut) = split_from-cons [] s in
      let at : c ≡ 46 = ground (arith, dot) in
      let ih : join_dots (p ∷ ps) ≡ s = rw (sym cut) (join_dots-split_from [] s) in
      rw dot (rw (cut, at) (ap (λ r. reverse w ++ 46 ∷ r) ih))
  | inr other ↦
      let turn : reverse (c ∷ w) ++ s ≡ reverse w ++ c ∷ s =
        rw (reverse-cons c w) (append_assoc (reverse w) (c ∷ []) s) in
      rw other (join_dots-split_from (c ∷ w) s ∙ turn)
]

blocked_from-whole :
    (fnv : List ℕ → ℕ) (b : Bloom) (s : List ℕ)
    → contain fnv b s ≡ true
    → blocked_from fnv b (split_from is_dot [] s) ≡ true
unfolding blocked_from
blocked_from-whole fnv b s h =
    let (p, ps, cut) = split_from-cons [] s in
    let whole : join_dots (p ∷ ps) ≡ s = rw (sym cut) (join_dots-split_from [] s) in
    rw cut (rw (whole, h) refl)

or-true : (x : Bool) → x || true ≡ true
or-true true = refl
or-true false = refl

blocked_from-below :
    (fnv : List ℕ → ℕ) (b : Bloom) (w sub d : List ℕ)
    → contain fnv b d ≡ true
    → blocked_from fnv b (split_from is_dot w (sub ++ 46 ∷ d)) ≡ true
unfolding blocked_from split_from
blocked_from-below fnv b w [] d h =
    rw (blocked_from-whole fnv b d h)
      (or-true (contain fnv b (join_dots (reverse w ∷ split_from is_dot [] d))))
blocked_from-below fnv b w (c ∷ sub) d h = elim (Bool-cases (is_dot c)) [
  | inl dot ↦
      let cut = split_from is_dot [] (sub ++ 46 ∷ d) in
      rw (dot, blocked_from-below fnv b [] sub d h)
        (or-true (contain fnv b (join_dots (reverse w ∷ cut))))
  | inr other ↦ rw other (blocked_from-below fnv b (c ∷ w) sub d h)
]

-- A host on a line of the filter list, `||host^`, is refused, and so is every host below it, without
-- a call of the transport, whatever the hash function.
pub round_trip-upload_filter :
    (fnv : List ℕ → ℕ) (Response : Type 0) (base : List ℕ → Result RoundTripError Response)
    (body : List ℕ) (earlier later : List (List ℕ)) (line d host : List ℕ)
    → split_lines body ≡ earlier ++ line ∷ later
    → trim_space line ≡ rule_line d
    → (host ≡ d) ⊎ ((sub : List ℕ) × (host ≡ sub ++ 46 ∷ d))
    → round_trip fnv (upload_filter fnv body) base host ≡ err blocked
unfolding round_trip upload_filter is_blocked
round_trip-upload_filter fnv Response base body earlier later line d host lines rule below =
    let b = upload_lines fnv empty_bloom (split_lines body) in
    let added : Added fnv b d =
      rw lines (upload_lines-rule fnv empty_bloom earlier later line d empty_bloom-IsFull rule) in
    let known = contain-Added fnv b d added in
    let refused : blocked_from fnv b (split_from is_dot [] host) ≡ true = elim below [
      | inl same ↦ rw same (blocked_from-whole fnv b d known)
      | inr (sub, e) ↦ rw e (blocked_from-below fnv b [] sub d known)
    ] in
    rw refused refl
