-- ===== src/Heap/Bounds.antt =====
-- The least entry of a heap is its root, and the greatest is among the root's children.
use wfts.Common.{
  leb, leb→le, Bool-cases, length, ℕ, zero, suc, ◌≤◌, ◌<◌, ◌≡◌, refl, ap, ◌≢◌, inl, inr, true, List,
  arith,
}
use native.Mathlib.Decide.{ℕ_discrete}
use wfts.Heap.{LinkToken, is_min_level, log2_floor, level}
use wfts.Heap.Slice.{key}
use wfts.Heap.Order.{parent, grandparent, is_min_level-parent, is_min_level-grandparent, IsHeap}

pub is_min_level-zero : is_min_level 0 ≡ true
unfolding is_min_level level log2_floor
is_min_level-zero = refl

is_min_level-far : (i : ℕ) → 0 < i → is_min_level i ≡ true → 3 ≤ i
is_min_level-far i pos side = elim (Bool-cases (leb 3 i)) [
  | inl far ↦ leb→le 3 i far
  | inr near ↦
      let e : parent i ≡ 0 = ground (arith, near) in
      ground (arith, is_min_level-parent i pos, ap is_min_level e, is_min_level-zero)
]

module _ (a : List LinkToken) (h : IsHeap a) where
  root_least_below : (k i : ℕ) → i < k → i < length a → key a 0 ≤ key a i
  root_least_below zero i lt hi = absurd (omega arith)
  root_least_below (suc k) zero lt hi = omega arith
  root_least_below (suc k) (suc j) lt hi = elim (Bool-cases (is_min_level (suc j))) [
    | inl side ↦
        let far = is_min_level-far (suc j) (omega arith) side in
        ground (
          arith,
          side,
          h.grandparents (suc j) far hi,
          root_least_below k (grandparent (suc j)) (omega arith) (omega arith),
        )
    | inr side ↦ ground (
      arith,
      side,
      h.parents (suc j) (omega arith) hi,
      root_least_below k (parent (suc j)) (omega arith) (omega arith),
    )
  ]

  pub root_least : (i : ℕ) → i < length a → key a 0 ≤ key a i
  root_least i hi = root_least_below (suc i) i (omega arith) hi

  -- A bound of the root's children bounds every entry below the root.
  module _ (bound : ℕ) (one : key a 1 ≤ bound) (two : 2 < length a → key a 2 ≤ bound) where
    below_root_bounded : (k i : ℕ) → i < k → 0 < i → i < length a → key a i ≤ bound
    below_root_bounded zero i lt pos hi = absurd (omega arith)
    below_root_bounded (suc k) zero lt pos hi = absurd (omega arith)
    below_root_bounded (suc k) (suc j) lt pos hi = elim (Bool-cases (leb 3 (suc j))) [
      | inl far ↦
          let far' : 3 ≤ suc j = leb→le 3 (suc j) far in
          elim (Bool-cases (is_min_level (suc j))) [
            | inl side ↦ ground (
              arith,
              side,
              h.parents (suc j) pos hi,
              below_root_bounded k (parent (suc j)) (omega arith) (omega arith) (omega arith),
            )
            | inr side ↦
                let same = is_min_level-grandparent (suc j) far' in
                let low : grandparent (suc j) ≢ 0 =
                  λ e. ground (arith, same, side, ap is_min_level e, is_min_level-zero) in
                ground (
                  arith,
                  side,
                  h.grandparents (suc j) far' hi,
                  below_root_bounded k (grandparent (suc j)) (omega arith) (omega (arith, low))
                      (omega arith),
                )
          ]
      | inr near ↦ elim (ℕ_discrete j 0) [
        | yes e ↦ rw e one
        | no k ↦ let e : suc j ≡ 2 = ground (arith, near) in rw e (two (omega arith))
      ]
    ]

  pub children_greatest :
      (bound i : ℕ)
      → key a 1 ≤ bound
      → (2 < length a → key a 2 ≤ bound)
      → 1 < length a
      → i < length a
      → key a i ≤ bound
  children_greatest bound zero one two size hi = omega (arith, root_least 1 size)
  children_greatest bound (suc j) one two size hi =
      below_root_bounded bound one two (suc (suc j)) (suc j) (omega arith) (omega arith) hi
