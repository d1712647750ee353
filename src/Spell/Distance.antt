-- ===== src/Spell/Distance.antt =====
-- The edit distance as its recursion on two words, the last runes first.
use wfts.Common.{
  if◌then◌else◌, ◌==◌, length, get_or, ℕ, suc, ◌+◌, ◌≤◌, min, ◌≡◌, refl, List, [], ◌∷◌, arith,
}

abbrev pub smallest : ℕ → ℕ → ℕ → ℕ
smallest a b c = min (min a b) c

unfoldable pub distance : List ℕ → List ℕ → ℕ
distance [] py = length py
distance (x ∷ px) [] = suc (length px)
distance (x ∷ px) (y ∷ py) =
    let replace = distance px py in
    let insert = distance (x ∷ px) py in
    let remove = distance px (y ∷ py) in
    if x == y then replace else smallest insert replace remove + 1

pub distance-nil : (px : List ℕ) → distance px [] ≡ length px
unfolding distance
distance-nil [] = refl
distance-nil (x ∷ px) = refl

-- The second word is read from the front, so the runes before a place are on `seen`, the last first.
abbrev pub reverse_onto : List ℕ → List ℕ → List ℕ
reverse_onto seen [] = seen
reverse_onto seen (y ∷ ys) = reverse_onto (y ∷ seen) ys

-- The cells of the row of `px` behind the place `seen`.
abbrev pub cells : List ℕ → List ℕ → List ℕ → List ℕ
cells px seen [] = []
cells px seen (y ∷ ys) = distance px (y ∷ seen) ∷ cells px (y ∷ seen) ys

pub get_or-cells :
    (px seen ys : List ℕ)
    → get_or (distance px seen ∷ cells px seen ys) (length ys) 0
      ≡ distance px (reverse_onto seen ys)
get_or-cells px seen [] = refl
get_or-cells px seen (y ∷ ys) = get_or-cells px (y ∷ seen) ys

-- Every cell of the row of `px` from `seen` on is at least `b`.
abbrev pub AtLeast : ℕ → List ℕ → List ℕ → List ℕ → Type 0
AtLeast b px seen [] = b ≤ distance px seen
AtLeast b px seen (y ∷ ys) = (b ≤ distance px seen) × AtLeast b px (y ∷ seen) ys

AtLeast-head : (b : ℕ) (px seen ys : List ℕ) → AtLeast b px seen ys → b ≤ distance px seen
AtLeast-head b px seen [] h = h
AtLeast-head b px seen (y ∷ ys) h = h.0

AtLeast-last :
    (b : ℕ) (px seen ys : List ℕ) → AtLeast b px seen ys → b ≤ distance px (reverse_onto seen ys)
AtLeast-last b px seen [] h = h
AtLeast-last b px seen (y ∷ ys) h = AtLeast-last b px (y ∷ seen) ys h.1

-- A bound of a row bounds the next row.
AtLeast-next :
    (b x : ℕ) (px seen ys : List ℕ)
    → AtLeast b px seen ys
    → b ≤ distance (x ∷ px) seen
    → AtLeast b (x ∷ px) seen ys
AtLeast-next b x px seen [] h first = first
AtLeast-next b x px seen (y ∷ ys) h first =
    let above = AtLeast-head b px (y ∷ seen) ys h.1 in
    (
      first,
      AtLeast-next b x px (y ∷ seen) ys h.1 (unfold distance in ground (arith, h.0, first, above)),
    )

-- So it bounds the distance in the end.
pub AtLeast-distance :
    (b : ℕ) (px cs ys : List ℕ)
    → AtLeast b px [] ys
    → b ≤ distance (reverse_onto px cs) (reverse_onto [] ys)
AtLeast-distance b px [] ys h = AtLeast-last b px [] ys h
AtLeast-distance b px (c ∷ cs) ys h =
    let first : b ≤ length px = rw (distance-nil px) at (AtLeast-head b px [] ys h) in
    AtLeast-distance b (c ∷ px) cs ys
      (AtLeast-next b c px [] ys h (unfold distance in omega (arith, first)))
