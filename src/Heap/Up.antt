-- ===== src/Heap/Up.antt =====
-- The loops of bubbleUpMin and bubbleUpMax restore the order of a heap in which one entry may be out
-- of order with its grandparent.
use wfts.Common.{
  ltb, Bool-cases, length, ℕ, zero, suc, ◌≤◌, ◌<◌, ◌≡◌, ap, ◌∙◌, ◌≢◌, inl, inr, Bool, true, false,
  List, arith,
}
use mathlib.Core.List.Perm
use native.Mathlib.Decide.{ℕ_discrete}
use wfts.Common.Partial.{Yields, yields, Yields-map}
use wfts.Heap.{LinkToken, is_min_level, before, bubble_loop}
use wfts.Heap.Slice.{
  key, swapped, key-swapped, length-swapped, swap-swapped, compare_at-key, swapped-perm,
}
use wfts.Heap.Order.{
  parent, grandparent, is_min_level-parent, is_min_level-grandparent, Le, ParentOk, GrandparentOk,
  IsHeap, Sorted,
}

-- Only the edge from `i` to its grandparent may be out of order; `d` says on which kind of level.
pub record UpInv (d : Bool) (a : List LinkToken) (i : ℕ) : Type 0 where
  pub inside : i < length a
  pub side : is_min_level i ≡ d
  pub parents : (c : ℕ) → 0 < c → c < length a → ParentOk a c
  pub grandparents : (c : ℕ) → 3 ≤ c → c < length a → c ≢ i → GrandparentOk a c
  pub below_child :
      (c : ℕ) → 3 ≤ i → 0 < c → c < length a → parent c ≡ i → Le d (key a (grandparent i)) (key a c)
  pub below_grandchild :
      (c : ℕ)
      → 3 ≤ i
      → 3 ≤ c
      → c < length a
      → grandparent c ≡ i
      → Le d (key a (grandparent i)) (key a c)

module _ (d : Bool) (a : List LinkToken) (i : ℕ) (v : UpInv d a i) (far : 3 ≤ i) where
  -- The parent of `i` is at most (on a min level: at least) the grandparent.
  above_parent : Le (is_min_level (parent i)) (key a (parent i)) (key a (grandparent i))
  above_parent =
      let e : parent (parent i) ≡ grandparent i = omega arith in
      let p : ParentOk a (parent i) = v.parents (parent i) (omega arith) (omega arith) in rw e at p

  module _ (better : before d (key a i) (key a (grandparent i)) ≡ true) where
    rise_parents : (c : ℕ) → 0 < c → c < length a → ParentOk (swapped a i (grandparent i)) c
    rise_parents c pos hc =
        let at = key-swapped a i (grandparent i) v.inside (omega arith) in
        ground (
          arith,
          at c,
          at (parent c),
          v.side,
          v.parents c,
          above_parent,
          v.below_child c,
          is_min_level-parent c pos,
          is_min_level-parent i (omega arith),
          is_min_level-grandparent i far,
        )

    rise_grandparents :
        (c : ℕ)
        → 3 ≤ c
        → c < length a
        → c ≢ grandparent i
        → GrandparentOk (swapped a i (grandparent i)) c
    rise_grandparents c pos hc other =
        let at = key-swapped a i (grandparent i) v.inside (omega arith) in
        ground (
          arith,
          at c,
          at (grandparent c),
          v.side,
          v.grandparents c,
          v.below_grandchild c,
          is_min_level-grandparent c pos,
          is_min_level-grandparent i far,
        )

    rise_below_child :
        (c : ℕ)
        → 3 ≤ grandparent i
        → 0 < c
        → c < length a
        → parent c ≡ grandparent i
        → Le d
            (key (swapped a i (grandparent i)) (grandparent (grandparent i)))
            (key (swapped a i (grandparent i)) c)
    rise_below_child c far' pos hc e =
        let at = key-swapped a i (grandparent i) v.inside (omega arith) in
        let p : Le (is_min_level c) (key a c) (key a (grandparent i)) =
          rw e at (v.parents c pos hc) in
        ground (
          arith,
          at c,
          at (grandparent (grandparent i)),
          v.side,
          p,
          ap is_min_level e,
          v.grandparents (grandparent i) far',
          is_min_level-parent c pos,
          is_min_level-grandparent i far,
        )

    rise_below_grandchild :
        (c : ℕ)
        → 3 ≤ grandparent i
        → 3 ≤ c
        → c < length a
        → grandparent c ≡ grandparent i
        → Le d
            (key (swapped a i (grandparent i)) (grandparent (grandparent i)))
            (key (swapped a i (grandparent i)) c)
    rise_below_grandchild c far' pos hc e =
        let at = key-swapped a i (grandparent i) v.inside (omega arith) in
        let g : c ≢ i → Le (is_min_level c) (key a (grandparent i)) (key a c) =
          λ n. rw e at (v.grandparents c pos hc n) in
        ground (
          arith,
          at c,
          at (grandparent (grandparent i)),
          v.side,
          g,
          ap is_min_level e,
          v.grandparents (grandparent i) far',
          is_min_level-grandparent c pos,
          is_min_level-grandparent i far,
        )

    rise-UpInv : UpInv d (swapped a i (grandparent i)) (grandparent i)
    rise-UpInv =
        let size = length-swapped a i (grandparent i) in
        record {
          inside = omega (arith, size);
          side = ground (arith, v.side, is_min_level-grandparent i far);
          parents = λ c pos hc. rise_parents c pos (omega (arith, size));
          grandparents = λ c pos hc. rise_grandparents c pos (omega (arith, size));
          below_child = λ c f pos hc. rise_below_child c f pos (omega (arith, size));
          below_grandchild = λ c f pos hc. rise_below_grandchild c f pos (omega (arith, size));
        }

settled-IsHeap :
    (d : Bool) (a : List LinkToken) (i : ℕ)
    → UpInv d a i
    → before d (key a i) (key a (grandparent i)) ≡ false
    → IsHeap a
settled-IsHeap d a i v settled = record {
  parents = v.parents;
  grandparents = λ c pos hc. elim (ℕ_discrete c i) [
    | yes e ↦
        let side : is_min_level c ≡ d = ap is_min_level e ∙ v.side in
        rw (side, e) (ordered d settled)
    | no n ↦ v.grandparents c pos hc n
  ];
}
  where
    ordered :
        (d : Bool)
        → before d (key a i) (key a (grandparent i)) ≡ false
        → Le d (key a (grandparent i)) (key a i)
    ordered true h = ground arith
    ordered false h = ground arith

-- The loop ends with the order restored, after at most `i` rounds.
pub bubble_loop_restores :
    (f : ℕ) (d : Bool) (a : List LinkToken) (i : ℕ)
    → i < f
    → UpInv d a i
    → Yields (Sorted a) (bubble_loop f d a i)
unfolding bubble_loop
bubble_loop_restores zero d a i h v = absurd (omega arith)
bubble_loop_restores (suc f) d a i h v = elim (Bool-cases (ltb i 3)) [
  | inl near ↦ rw near (
      yields (
        record {
          parents = v.parents;
          grandparents = λ c pos hc. v.grandparents c pos hc (ground arith);
        },
        Perm.rfl,
      ))
  | inr far ↦
      let far' : 3 ≤ i = ground arith in
      let above : grandparent i < length a = omega (arith, v.inside) in
      rw (far, compare_at-key a i (grandparent i) v.inside above d)
        (elim (Bool-cases (before d (key a i) (key a (grandparent i)))) [
          | inl better ↦
              rw (better, swap-swapped a i (grandparent i) v.inside above)
                (Yields-map
                  (bubble_loop_restores f d (swapped a i (grandparent i)) (grandparent i)
                    (omega arith) (rise-UpInv d a i v far' better))
                  λ b s. (s.0, Perm.trans s.1 (swapped-perm a i (grandparent i) v.inside above)))
          | inr settled ↦ rw settled (yields (settled-IsHeap d a i v settled, Perm.rfl))
        ])
]
