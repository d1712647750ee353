-- ===== src/Heap/Down.antt =====
-- The order of a heap in which one entry may be too low in the tree, and what one step of
-- trickleDown does to it.
use wfts.Common.{
  length, ℕ, ◌+◌, ◌*◌, ◌≤◌, ◌<◌, ◌≡◌, ap, ◌∙◌, ◌≢◌, Bool, true, false, not, List, arith,
}
use mathlib.Core.List.{Perm}
use mathlib.Core.List.Perm
use native.Mathlib.Decide.{ℕ_discrete}
use wfts.Heap.{LinkToken, is_min_level, before}
use wfts.Heap.Extreme.{IsExtreme}
use wfts.Heap.Slice.{key, swapped, key-swapped, length-swapped, swapped-perm}
use wfts.Heap.Order.{
  parent, grandparent, is_min_level-parent, is_min_level-grandparent, Le, ParentOk, GrandparentOk,
  IsHeap,
}

-- Only the edges from `i` down may be out of order.
pub record DownInv (d : Bool) (n : ℕ) (a : List LinkToken) (i : ℕ) : Type 0 where
  pub size : length a ≡ n
  pub inside : i < n
  pub side : is_min_level i ≡ d
  pub parents : (c : ℕ) → 0 < c → c < n → parent c ≢ i → ParentOk a c
  pub grandparents : (c : ℕ) → 3 ≤ c → c < n → grandparent c ≢ i → GrandparentOk a c
  pub below_child :
      (c : ℕ) → 3 ≤ i → 0 < c → c < n → parent c ≡ i → Le d (key a (grandparent i)) (key a c)
  pub below_grandchild :
      (c : ℕ) → 3 ≤ i → 3 ≤ c → c < n → grandparent c ≡ i → Le d (key a (grandparent i)) (key a c)

module _ (d : Bool) (n : ℕ) (a : List LinkToken) (i : ℕ) (v : DownInv d n a i) where
  pub childless-IsHeap : n ≤ 2 * i + 1 → IsHeap a
  childless-IsHeap h = record {
    parents = λ c p hc. v.parents c p (omega (arith, v.size)) (omega (arith, v.size));
    grandparents = λ c p hc. v.grandparents c p (omega (arith, v.size)) (omega (arith, v.size));
  }

  module _ (m : ℕ) (x : IsExtreme n d a i m) where
    pub settled-IsHeap : before d (key a m) (key a i) ≡ false → IsHeap a
    settled-IsHeap settled = record {
      parents = λ c p hc. elim (ℕ_discrete (parent c) i) [
        | yes e ↦ ground (
          arith,
          v.side,
          v.size,
          x.children c,
          is_min_level-parent c p,
          ap is_min_level e,
          ap (key a) e,
        )
        | no k ↦ v.parents c p (omega (arith, v.size)) k
      ];
      grandparents = λ c p hc. elim (ℕ_discrete (grandparent c) i) [
        | yes e ↦ ground (
          arith,
          v.side,
          v.size,
          x.grandchildren c,
          is_min_level-grandparent c p,
          ap is_min_level e,
          ap (key a) e,
        )
        | no k ↦ v.grandparents c p (omega (arith, v.size)) k
      ];
    }

    -- The best is a child: one swap is enough, since it is on the last pair of levels.
    module _ (better : before d (key a m) (key a i) ≡ true) (child : parent m ≡ i) where
      pub swapped_child-IsHeap : IsHeap (swapped a i m)
      swapped_child-IsHeap =
          let hi : i < length a = omega (arith, v.size, v.inside) in
          let hm : m < length a = omega (arith, v.size, x.inside) in
          let at = key-swapped a i m hi hm in
          let size = length-swapped a i m in
          let side : is_min_level m ≡ not d =
            is_min_level-parent m (omega arith) ∙ ap not (ap is_min_level child ∙ v.side) in
          let up : grandparent m ≡ parent i = omega arith in
          let above : 0 < i → Le d (key a i) (key a (grandparent m)) =
            λ h. rw (up, ← v.side) (v.parents i h v.inside (omega arith)) in
          record {
            parents = λ c p hc. ground (
              arith,
              at c,
              at (parent c),
              size,
              side,
              v.size,
              v.side,
              v.parents c,
              x.children c,
              is_min_level-parent c p,
            );
            grandparents = λ c p hc. ground (
              arith,
              at c,
              at (grandparent c),
              size,
              side,
              v.size,
              v.side,
              v.grandparents c,
              x.grandchildren c,
              v.below_child m,
              above,
              x.below,
              is_min_level-grandparent c p,
            );
          }

-- The state after the best grandchild `m` has risen to `i`: what stood at `i` is now at `m` or, if
-- it was out of order with `m`'s parent `p`, has been exchanged with that.
pub record Sunk (d : Bool) (a : List LinkToken) (i m p : ℕ) (e : List LinkToken) : Type 0 where
  pub size : length e ≡ length a
  pub risen : key e i ≡ key a m
  pub others : (c : ℕ) → c ≢ i → c ≢ m → c ≢ p → key e c ≡ key a c
  pub order : Le d (key e m) (key e p)
  pub not_below : Le d (key a m) (key e m)
  pub not_above : Le d (key a p) (key e p)
  pub bounded : (z : ℕ) → Le d (key a i) z → Le d (key a p) z → Le d (key e p) z
  pub same : Perm e a

module _ (d : Bool) (n : ℕ) (a : List LinkToken) (i m : ℕ) (v : DownInv d n a i)
    (x : IsExtreme n d a i m) (better : before d (key a m) (key a i) ≡ true) (far : 3 ≤ m)
    (kin : grandparent m ≡ i) where
  pub stays-Sunk :
      before (not d) (key (swapped a i m) m) (key (swapped a i m) (parent m)) ≡ false
      → Sunk d a i m (parent m) (swapped a i m)
  stays-Sunk settled =
      let hi : i < length a = omega (arith, v.size, v.inside) in
      let hm : m < length a = omega (arith, v.size, x.inside) in
      let at = key-swapped a i m hi hm in
      record {
        size = length-swapped a i m;
        risen = ground (arith, at i);
        others = λ c p q r. ground (arith, at c);
        order = ground (arith, settled);
        not_below = ground (arith, at m);
        not_above = ground (arith, at (parent m));
        bounded = λ z p q. ground (arith, at (parent m));
        same = swapped-perm a i m hi hm;
      }

  pub crosses-Sunk :
      before (not d) (key (swapped a i m) m) (key (swapped a i m) (parent m)) ≡ true
      → Sunk d a i m (parent m) (swapped (swapped a i m) m (parent m))
  crosses-Sunk crossed =
      let hi : i < length a = omega (arith, v.size, v.inside) in
      let hm : m < length a = omega (arith, v.size, x.inside) in
      let at = key-swapped a i m hi hm in
      let b = swapped a i m in
      let size = length-swapped a i m in
      let hm' : m < length b = omega (arith, size) in
      let hp' : parent m < length b = omega (arith, size) in
      let at' = key-swapped b m (parent m) hm' hp' in
      let best : Le d (key a m) (key a (parent m)) =
        x.children (parent m) (omega arith) (omega (arith, x.inside)) (omega arith) in
      record {
        size = length-swapped b m (parent m) ∙ size;
        risen = ground (arith, at i, at' i);
        others = λ c p q r. ground (arith, at c, at' c);
        order = ground (arith, at' m, at' (parent m), crossed);
        not_below = ground (arith, at m, at (parent m), at' m, best);
        not_above = ground (arith, at m, at (parent m), at' (parent m), crossed);
        bounded = λ z p q. ground (arith, at m, at' (parent m));
        same = Perm.trans (swapped-perm b m (parent m) hm' hp') (swapped-perm a i m hi hm);
      }

  module _ (e : List LinkToken) (s : Sunk d a i m (parent m) e) where
    -- The levels of the three places, and the bounds that the old order gives.
    side_m : is_min_level m ≡ d
    side_m = is_min_level-grandparent m far ∙ ap is_min_level kin ∙ v.side

    up : parent (parent m) ≡ i
    up = omega arith

    side_p : is_min_level (parent m) ≡ not d
    side_p = is_min_level-parent (parent m) (omega arith) ∙ ap not (ap is_min_level up ∙ v.side)

    above_i : 0 < i → Le d (key a i) (key a (parent i))
    above_i h = rw (← v.side) (v.parents i h v.inside (omega arith))

    above_p : 0 < i → Le d (key a (parent m)) (key a (parent i))
    above_p h =
        let far' : grandparent (parent m) ≡ parent i = omega arith in
        let g : GrandparentOk a (parent m) =
          v.grandparents (parent m) (omega arith) (omega (arith, x.inside)) (omega arith) in
        let g' = rw (far', side_p) at g in flip d g'
      where
        flip :
            (d : Bool)
            → Le (not d) (key a (parent i)) (key a (parent m))
            → Le d (key a (parent m)) (key a (parent i))
        flip true h = h
        flip false h = h

    sunk_parents : (c : ℕ) → 0 < c → c < n → parent c ≢ m → ParentOk e c
    sunk_parents c pos hc other = ground (
      arith,
      s.risen,
      s.others c,
      s.others (parent c),
      s.order,
      s.not_above,
      side_m,
      side_p,
      up,
      v.side,
      v.parents c,
      above_i,
      better,
      x.children c,
      is_min_level-parent c pos,
    )

    sunk_grandparents : (c : ℕ) → 3 ≤ c → c < n → grandparent c ≢ m → GrandparentOk e c
    sunk_grandparents c pos hc other = ground (
      arith,
      s.risen,
      s.others c,
      s.others (grandparent c),
      s.not_below,
      s.bounded (key a (grandparent c)),
      s.not_above,
      side_m,
      side_p,
      v.side,
      v.grandparents c,
      above_i,
      above_p,
      v.below_grandchild m,
      x.grandchildren c,
      is_min_level-grandparent c pos,
    )

    pub sunk-DownInv : DownInv d n e m
    sunk-DownInv = record {
      size = s.size ∙ v.size;
      inside = x.inside;
      side = side_m;
      parents = sunk_parents;
      grandparents = sunk_grandparents;
      below_child = λ c f pos hc k.
          let old : Le (is_min_level c) (key a c) (key a m) =
            rw k at (v.parents c pos hc (omega (arith, x.below))) in
          rw kin (
            ground (
              arith,
              s.risen,
              s.others c,
              old,
              side_m,
              x.below,
              is_min_level-parent c pos,
              ap is_min_level k,
            ));
      below_grandchild = λ c f pos hc k.
          let old : Le (is_min_level c) (key a m) (key a c) =
            rw k at (v.grandparents c pos hc (omega (arith, x.below))) in
          rw kin (
            ground (
              arith,
              s.risen,
              s.others c,
              old,
              side_m,
              x.below,
              is_min_level-grandparent c pos,
              ap is_min_level k,
            ));
    }
