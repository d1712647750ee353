-- ===== src/Spell/Laws.antt =====
-- levenshteinDistance against the recursive distance.
use wfts.Common.{
  ltb, if◌then◌else◌, ◌==◌, Bool-cases, length, ℕ, suc, ◌+◌, ◌≤◌, ◌<◌, min, ◌≡◌, refl, sym, ◌∙◌,
  ◌⊎◌, inl, inr, false, List, [], ◌∷◌, arith,
}
use wfts.Spell.{fill, rows, count_from, levenshtein_distance}
use wfts.Spell.Distance.{
  distance, distance-nil, reverse_onto, cells, get_or-cells, AtLeast, AtLeast-distance,
}

module _ (c : ℕ) (px : List ℕ) where
  -- The inner loop turns the row of `px` into the row of `c ∷ px`. `left` may be too small at the
  -- start of the row, where the code takes `i` for `i + 1`: `up_left` is as small there.
  fill-cells :
      (ys seen : List ℕ) (up_left left min_row : ℕ)
      → up_left ≡ distance px seen
      → min left up_left ≡ min (distance (c ∷ px) seen) up_left
      → (fill c ys (cells px seen ys) up_left left min_row).0 ≡ cells (c ∷ px) seen ys
  unfolding fill
  fill-cells [] seen u l m hu hl = refl
  fill-cells (y ∷ ys) seen u l m hu hl =
      let v = if c == y then u else min (min l u) (distance px (y ∷ seen)) + 1 in
      let e : v ≡ distance (c ∷ px) (y ∷ seen) = unfold distance in ground (arith, hu, hl) in
      rw (fill-cells ys (y ∷ seen) (distance px (y ∷ seen)) v (min m v) refl (rw e refl), e)

  fill-min_row :
      (ys seen : List ℕ) (up_left left min_row : ℕ)
      → up_left ≡ distance px seen
      → min left up_left ≡ min (distance (c ∷ px) seen) up_left
      → (fill c ys (cells px seen ys) up_left left min_row).1 ≤ min_row
  unfolding fill
  fill-min_row [] seen u l m hu hl = omega arith
  fill-min_row (y ∷ ys) seen u l m hu hl =
      let v = if c == y then u else min (min l u) (distance px (y ∷ seen)) + 1 in
      let e : v ≡ distance (c ∷ px) (y ∷ seen) = unfold distance in ground (arith, hu, hl) in
      omega
        (arith, fill-min_row ys (y ∷ seen) (distance px (y ∷ seen)) v (min m v) refl (rw e refl))

  -- minRow bounds the new row.
  fill-AtLeast :
      (ys seen : List ℕ) (up_left left min_row b : ℕ)
      → up_left ≡ distance px seen
      → min left up_left ≡ min (distance (c ∷ px) seen) up_left
      → b ≤ (fill c ys (cells px seen ys) up_left left min_row).1
      → b ≤ distance (c ∷ px) seen
      → AtLeast b (c ∷ px) seen ys
  unfolding fill
  fill-AtLeast [] seen u l m b hu hl small first = first
  fill-AtLeast (y ∷ ys) seen u l m b hu hl small first =
      let v = if c == y then u else min (min l u) (distance px (y ∷ seen)) + 1 in
      let e : v ≡ distance (c ∷ px) (y ∷ seen) = unfold distance in ground (arith, hu, hl) in
      let d = distance px (y ∷ seen) in
      (
        first,
        fill-AtLeast ys (y ∷ seen) d v (min m v) b refl (rw e refl) small
            (omega (arith, e, small, fill-min_row ys (y ∷ seen) d v (min m v) refl (rw e refl))),
      )

-- The distance itself, or the limit plus one where the distance exceeds the limit.
abbrev pub Limited : ℕ → ℕ → ℕ → Type 0
Limited max_typo d r = (r ≡ d) ⊎ ((r ≡ max_typo + 1) × (max_typo < d))

rows-Limited :
    (max_typo : ℕ) (ys : List ℕ) (i : ℕ) (cs px : List ℕ)
    → i ≡ length px
    → Limited max_typo
        (distance (reverse_onto px cs) (reverse_onto [] ys))
        (rows max_typo ys i cs (cells px [] ys))
unfolding rows
rows-Limited max_typo ys i [] px hi =
    let e : i ≡ distance px [] = hi ∙ sym (distance-nil px) in inl (rw e (get_or-cells px [] ys))
rows-Limited max_typo ys i (c ∷ cs) px hi =
    let up : i ≡ distance px [] = hi ∙ sym (distance-nil px) in
    let left : min i i ≡ min (distance (c ∷ px) []) i = unfold distance in omega (arith, hi) in
    elim (Bool-cases (ltb max_typo (fill c ys (cells px [] ys) i i i).1)) [
      | inl far ↦
          let bound : max_typo + 1 ≤ (fill c ys (cells px [] ys) i i i).1 = ground (arith, far) in
          let first : max_typo + 1 ≤ distance (c ∷ px) [] =
            unfold distance in omega (arith, hi, bound, fill-min_row c px ys [] i i i up left) in
          rw far (
            inr (
              refl,
              omega (
                arith,
                AtLeast-distance (max_typo + 1) (c ∷ px) cs ys
                    (fill-AtLeast c px ys [] i i i (max_typo + 1) up left bound first),
              ),
            ))
      | inr near ↦
          rw (near, fill-cells c px ys [] i i i up left)
            (rows-Limited max_typo ys (i + 1) cs (c ∷ px) (omega (arith, hi)))
    ]

count_from-cells :
    (ys seen : List ℕ) (n : ℕ) → n ≡ length seen + 1 → count_from n ys ≡ cells [] seen ys
unfolding count_from distance
count_from-cells [] seen n h = refl
count_from-cells (y ∷ ys) seen n h =
    let e : n ≡ suc (length seen) = omega (arith, h) in
    rw (e, count_from-cells ys (y ∷ seen) (suc (length seen) + 1) refl)

length-reverse_onto : (ys seen : List ℕ) → length (reverse_onto seen ys) ≡ length seen + length ys
length-reverse_onto [] seen = omega arith
length-reverse_onto (y ∷ ys) seen = omega (arith, length-reverse_onto ys (y ∷ seen))

-- The result is the edit distance of the two words, or the limit plus one, and that only if the
-- distance exceeds the limit. So a result within the limit is exact.
pub levenshtein_distance-Limited :
    (word1 word2 : List ℕ) (max_typo : ℕ)
    → Limited max_typo
        (distance (reverse_onto [] word1) (reverse_onto [] word2))
        (levenshtein_distance word1 word2 max_typo)
unfolding levenshtein_distance
levenshtein_distance-Limited [] ys max_typo =
    inl (unfold distance in omega (arith, length-reverse_onto ys []))
levenshtein_distance-Limited (x ∷ xs) [] max_typo =
    let some1 : (suc (length xs) == 0) ≡ false = ground arith in
    rw (some1, distance-nil (reverse_onto [] (x ∷ xs)))
      (inl (omega (arith, length-reverse_onto xs (x ∷ []))))
levenshtein_distance-Limited (x ∷ xs) (y ∷ ys) max_typo =
    let some1 : (suc (length xs) == 0) ≡ false = ground arith in
    let some2 : (suc (length ys) == 0) ≡ false = ground arith in
    rw (some1, some2, count_from-cells (y ∷ ys) [] 1 (omega arith))
      (rows-Limited max_typo (y ∷ ys) 0 (x ∷ xs) [] refl)
