-- ===== src/Heap/Bubble.antt =====
-- bubbleUp restores the order of a heap to whose end a token has been added.
use wfts.Common.{
  if◌then◌else◌, ==_iff, ◌==◌, Bool-cases, length, ℕ, suc, ◌+◌, ◌≤◌, ◌<◌, ◌≡◌, ap, ◌∙◌, inl, inr,
  Bool, true, false, not, Option, List, arith,
}
use mathlib.Core.List.Perm
use native.Mathlib.Decide.{ℕ_discrete}
use wfts.Common.Partial.{◌>>=◌, Yields, yields, Yields-map}
use wfts.Heap.{
  LinkToken, is_min_level, before, compare_at, swap, bubble_loop, bubble_up_min, bubble_up_max,
  bubble_up,
}
use wfts.Heap.Slice.{
  key, swapped, key-swapped, length-swapped, swap-swapped, compare_at-key, swapped-perm,
}
use wfts.Heap.Order.{
  parent, grandparent, is_min_level-parent, is_min_level-grandparent, Le, ParentOk, GrandparentOk,
  Sorted,
}
use wfts.Heap.Up.{UpInv, bubble_loop_restores}

-- A heap to whose end one token has been added, at `i`.
pub record Added (a : List LinkToken) (i : ℕ) : Type 0 where
  pub last : length a ≡ suc i
  pub parents : (c : ℕ) → 0 < c → c < i → ParentOk a c
  pub grandparents : (c : ℕ) → 3 ≤ c → c < i → GrandparentOk a c

module _ (a : List LinkToken) (i : ℕ) (v : Added a i) (pos : 0 < i) where
  added_parent : 3 ≤ i → Le (is_min_level (parent i)) (key a (parent i)) (key a (grandparent i))
  added_parent far =
      let e : parent (parent i) ≡ grandparent i = omega arith in
      let p : ParentOk a (parent i) = v.parents (parent i) (omega arith) (omega arith) in rw e at p

  cross-UpInv :
      (d : Bool)
      → is_min_level i ≡ d
      → before (not d) (key a i) (key a (parent i)) ≡ true
      → UpInv (not d) (swapped a i (parent i)) (parent i)
  cross-UpInv d side better =
      let size = length-swapped a i (parent i) in
      let at = key-swapped a i (parent i) (omega (arith, v.last)) (omega (arith, v.last)) in
      let flip = is_min_level-parent i pos in
      record {
        inside = omega (arith, size, v.last);
        side = ground (arith, flip, side);
        parents = λ c q hc. ground (
          arith,
          at c,
          at (parent c),
          size,
          v.last,
          v.parents c,
          side,
          flip,
          is_min_level-parent c q,
        );
        grandparents = λ c q hc n. ground (
          arith,
          at c,
          at (grandparent c),
          size,
          v.last,
          v.grandparents c,
          added_parent,
          side,
          flip,
          is_min_level-grandparent c q,
        );
        below_child = λ c f q hc e.
            let sibling : c < i → Le (is_min_level c) (key a c) (key a (parent i)) =
              λ b. rw e at (v.parents c q b) in
            ground (
              arith,
              at c,
              at (grandparent (parent i)),
              size,
              v.last,
              sibling,
              ap is_min_level e,
              v.grandparents (parent i) f,
              side,
              flip,
              is_min_level-parent c q,
            );
        below_grandchild = λ c f q hc e. absurd (omega (arith, size, v.last));
      }

  stay-UpInv :
      (d : Bool)
      → is_min_level i ≡ d
      → before (not d) (key a i) (key a (parent i)) ≡ false
      → UpInv d a i
  stay-UpInv d side settled = record {
    inside = omega (arith, v.last);
    side = side;
    parents = λ c p hc. elim (ℕ_discrete c i) [
      | yes e ↦ rw (ap is_min_level e ∙ side, e) (ordered d settled)
      | no n ↦ v.parents c p (omega (arith, v.last))
    ];
    grandparents = λ c p hc n. v.grandparents c p (omega (arith, v.last));
    below_child = λ c f p hc e. absurd (omega (arith, v.last));
    below_grandchild = λ c f p hc e. absurd (omega (arith, v.last));
  }
    where
      ordered :
          (d : Bool)
          → before (not d) (key a i) (key a (parent i)) ≡ false
          → Le d (key a i) (key a (parent i))
      ordered true h = ground arith
      ordered false h = ground arith

-- The first step of `bubble_up`, on either kind of level.
module _ (a : List LinkToken) (i : ℕ) (v : Added a i) (pos : 0 < i) where
  cross_step : Bool → Option (List LinkToken) → Option (List LinkToken) → Option (List LinkToken)
  cross_step d cross stay = do
    crossed ← compare_at (not d) a i (parent i)
    if crossed then cross else stay

  cross_step_restores :
      (d : Bool)
      → is_min_level i ≡ d
      → Yields (Sorted a) (
          cross_step d
            (swap a i (parent i) >>= λ b. bubble_loop (parent i + 1) (not d) b (parent i))
            (bubble_loop (i + 1) d a i))
  unfolding cross_step
  cross_step_restores d side =
      let hi : i < length a = omega (arith, v.last) in
      let hp : parent i < length a = omega (arith, v.last) in
      rw (compare_at-key a i (parent i) hi hp (not d))
        (elim (Bool-cases (before (not d) (key a i) (key a (parent i)))) [
          | inl better ↦
              rw (better, swap-swapped a i (parent i) hi hp)
                (Yields-map
                  (bubble_loop_restores (parent i + 1) (not d) (swapped a i (parent i)) (parent i)
                    (omega arith) (cross-UpInv a i v pos d side better))
                  λ b s. (s.0, Perm.trans s.1 (swapped-perm a i (parent i) hi hp)))
          | inr settled ↦ rw settled (
              bubble_loop_restores (i + 1) d a i (omega arith)
                (stay-UpInv a i v pos d side settled))
        ])

-- `bubble_up` turns a heap with a token added to its end into a heap of the same tokens.
pub bubble_up_restores :
    (a : List LinkToken) (i : ℕ) → Added a i → Yields (Sorted a) (bubble_up a i)
unfolding bubble_up bubble_up_min bubble_up_max cross_step
bubble_up_restores a i v = elim (ℕ_discrete i 0) [
  | yes e ↦ rw ((==_iff i 0).1 e) (
      yields (
        record {
          parents = λ c p hc. absurd (omega (arith, v.last));
          grandparents = λ c p hc. absurd (omega (arith, v.last));
        },
        Perm.rfl,
      ))
  | no n ↦
      let low : (i == 0) ≡ false = ground arith in
      rw low (elim (Bool-cases (is_min_level i)) [
        | inl side ↦ rw side (cross_step_restores a i v (omega arith) true side)
        | inr side ↦ rw side (cross_step_restores a i v (omega arith) false side)
      ])
]
