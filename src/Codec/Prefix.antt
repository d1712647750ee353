-- ===== src/Codec/Prefix.antt =====
-- prefixUpperBound against the order of byte strings.
use wfts.Common.{
  ltb, if◌then◌else◌, ◌==◌, Bool-cases, ℕ, ◌+◌, ◌%◌, ◌<◌, ◌≡◌, refl, ap, inl, inr, Bool, true,
  false, not, ◌&&◌, ◌||◌, Option, none, some, List, [], ◌∷◌, ◌++◌, arith,
}
use mathlib.Core.List.{reverse, reverse-append, reverse-reverse}
use wfts.Common.Texts.{has_prefix}
use wfts.Codec.{increment_last, prefix_upper_bound}

-- The order of the store's keys.
unfoldable pub text_lt : List ℕ → List ℕ → Bool
text_lt s [] = false
text_lt [] (y ∷ ys) = true
text_lt (x ∷ xs) (y ∷ ys) = ltb x y || (x == y && text_lt xs ys)

unfoldable pub below_bound : Option (List ℕ) → List ℕ → Bool
below_bound none s = true
below_bound (some u) s = text_lt s u

abbrev pub AllBytes : List ℕ → Type 0
AllBytes [] = Unit
AllBytes (b ∷ bs) = (b < 256) × AllBytes bs

-- The bound by recursion from the front.
bump : List ℕ → Option (List ℕ)
bump [] = none
bump (b ∷ bs) = elim (bump bs) [
  | some u ↦ some (b ∷ u)
  | none ↦ if (b + 1) % 256 == 0 then none else some ((b + 1) % 256 ∷ [])
]

bump-append :
    (p : List ℕ) (b : ℕ)
    → bump (p ++ b ∷ []) ≡ (if (b + 1) % 256 == 0 then bump p else some (p ++ (b + 1) % 256 ∷ []))
unfolding bump
bump-append [] b = refl
bump-append (c ∷ p) b = elim (Bool-cases ((b + 1) % 256 == 0)) [
  | inl carry ↦ rw (bump-append p b, carry)
  | inr stop ↦ rw (bump-append p b, stop)
]

increment_last-bump : (r : List ℕ) → increment_last r ≡ bump (reverse r)
unfolding increment_last
increment_last-bump [] = unfold bump in refl
increment_last-bump (b ∷ r) =
    let back = reverse-append (b ∷ []) r in
    let back' = reverse-append ((b + 1) % 256 ∷ []) r in
    ground (arith, back, back', ap bump back, bump-append (reverse r) b, increment_last-bump r)

range-bump :
    (p s : List ℕ)
    → AllBytes p
    → AllBytes s
    → (not (text_lt s p) && below_bound (bump p) s) ≡ has_prefix s p
unfolding bump text_lt below_bound has_prefix
range-bump [] [] hp hs = refl
range-bump [] (c ∷ s) hp hs = refl
range-bump (b ∷ p) [] hp hs = refl
range-bump (b ∷ p) (c ∷ s) hp hs = ground (arith, range-bump p s hp.1 hs.1)

-- The keys between a prefix and its upper bound are exactly the keys that begin with the prefix;
-- with no upper bound, those from the prefix on.
pub prefix_upper_bound_range :
    (prefix key : List ℕ)
    → AllBytes prefix
    → AllBytes key
    → (not (text_lt key prefix) && below_bound (prefix_upper_bound prefix) key)
      ≡ has_prefix key prefix
unfolding prefix_upper_bound
prefix_upper_bound_range p s hp hs =
    rw (increment_last-bump (reverse p), reverse-reverse p) (range-bump p s hp hs)
