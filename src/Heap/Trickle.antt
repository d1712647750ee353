-- ===== src/Heap/Trickle.antt =====
-- The loop of trickleDown restores the order of a heap with one entry out of place.
use wfts.Common.{
  leb, if◌then◌else◌, leb→le, Bool-cases, length, ℕ, zero, suc, ◌+◌, ◌-◌, ◌*◌, ◌≤◌, ◌<◌, ◌≡◌, inl,
  inr, Bool, true, false, not, Option, none, some, List, arith,
}
use mathlib.Core.List.Perm
use wfts.Common.Partial.{◌>>=◌, Yields, yields, Yields-bind, Yields-map}
use wfts.Heap.{
  LinkToken, is_min_level, before, compare_at, swap, is_grandchild, trickle_round, trickle_loop,
  trickle_down_min, trickle_down_max, trickle_down,
}
use wfts.Heap.Extreme.{IsExtreme, Found, extreme_descendant-Found}
use wfts.Heap.Slice.{key, swapped, length-swapped, swap-swapped, compare_at-key, swapped-perm}
use wfts.Heap.Order.{parent, grandparent, Sorted}
use wfts.Heap.Down.{
  DownInv, Sunk, childless-IsHeap, settled-IsHeap, swapped_child-IsHeap, stays-Sunk, crosses-Sunk,
  sunk-DownInv,
}

-- A round of the loop, where `next` restores the order from any entry below `i`.
module _ (d : Bool) (n : ℕ) (next : List LinkToken → ℕ → Option (List LinkToken))
    (a : List LinkToken) (i : ℕ) (v : DownInv d n a i)
    (restores : (e : List LinkToken) (m : ℕ)
      → i < m
      → DownInv d n e m
      → Yields (Sorted e) (next e m)) where
  deeper_restores :
      (m : ℕ) (x : IsExtreme n d a i m) (e : List LinkToken)
      → 3 ≤ m
      → grandparent m ≡ i
      → before d (key a m) (key a i) ≡ true
      → Sunk d a i m (parent m) e
      → Yields (Sorted a) (next e m)
  deeper_restores m x e far kin better s =
      Yields-map (restores e m x.below (sunk-DownInv d n a i m v x better far kin e s))
        λ b t. (t.0, Perm.trans t.1 s.same)

  grandchild_restores :
      (m : ℕ) (x : IsExtreme n d a i m)
      → 3 ≤ m
      → grandparent m ≡ i
      → before d (key a m) (key a i) ≡ true
      → Yields (Sorted a) (
          swap a i m >>= λ b. compare_at (not d) b m (parent m) >>= λ crossed.
          (if crossed then swap b m (parent m) else some b) >>= λ c. next c m)
  grandchild_restores m x far kin better =
      let hi : i < length a = omega (arith, v.size, v.inside) in
      let hm : m < length a = omega (arith, v.size, x.inside) in
      let b = swapped a i m in
      let size = length-swapped a i m in
      let hm' : m < length b = omega (arith, size) in
      let hp' : parent m < length b = omega (arith, size) in
      rw (swap-swapped a i m hi hm, compare_at-key b m (parent m) hm' hp' (not d))
        (elim (Bool-cases (before (not d) (key b m) (key b (parent m)))) [
          | inl crossed ↦
              rw (crossed, swap-swapped b m (parent m) hm' hp')
                (deeper_restores m x _ far kin better
                  (crosses-Sunk d n a i m v x better far kin crossed))
          | inr settled ↦ rw settled (
              deeper_restores m x _ far kin better
                (stays-Sunk d n a i m v x better far kin settled))
        ])

  round_restores :
      (m : ℕ) → IsExtreme n d a i m → Yields (Sorted a) (trickle_round next d a i (some m))
  unfolding trickle_round is_grandchild
  round_restores m x =
      let hi : i < length a = omega (arith, v.size, v.inside) in
      let hm : m < length a = omega (arith, v.size, x.inside) in
      rw (compare_at-key a m i hm hi d) (elim (Bool-cases (leb (4 * i + 3) m)) [
        | inl deep ↦
            let far : 3 ≤ m = omega (arith, leb→le (4 * i + 3) m deep) in
            let kin : grandparent m ≡ i = omega (arith, leb→le (4 * i + 3) m deep, x.kin) in
            elim (Bool-cases (before d (key a m) (key a i))) [
              | inl better ↦ rw (deep, better) (grandchild_restores m x far kin better)
              | inr settled ↦
                  rw (deep, settled) (yields (settled-IsHeap d n a i v m x settled, Perm.rfl))
            ]
        | inr near ↦
            let below : m < 4 * i + 3 = ground (arith, near) in
            let kin : parent m ≡ i = omega (arith, x.kin) in
            elim (Bool-cases (before d (key a m) (key a i))) [
              | inl better ↦
                  rw (near, better, swap-swapped a i m hi hm)
                    (yields
                      (swapped_child-IsHeap d n a i v m x better kin, swapped-perm a i m hi hm))
              | inr settled ↦
                  rw (near, settled) (yields (settled-IsHeap d n a i v m x settled, Perm.rfl))
            ]
      ])

Found-restores :
    (d : Bool) (n : ℕ) (next : List LinkToken → ℕ → Option (List LinkToken)) (a : List LinkToken)
    (i : ℕ)
    → DownInv d n a i
    → ((e : List LinkToken) (m : ℕ) → i < m → DownInv d n e m → Yields (Sorted e) (next e m))
    → (best : Option ℕ) → Found n d a i best
    → Yields (Sorted a) (trickle_round next d a i best)
unfolding trickle_round
Found-restores d n next a i v restores none h = yields (childless-IsHeap d n a i v h, Perm.rfl)
Found-restores d n next a i v restores (some m) x = round_restores d n next a i v restores m x

-- The loop ends with the order restored, since the entry moves down in each round.
trickle_loop_restores :
    (f n : ℕ) (d : Bool) (a : List LinkToken) (i : ℕ)
    → n - i < f
    → DownInv d n a i
    → Yields (Sorted a) (trickle_loop f n d a i)
unfolding trickle_loop
trickle_loop_restores zero n d a i h v = absurd (omega arith)
trickle_loop_restores (suc f) n d a i h v = Yields-bind (extreme_descendant-Found n d a i v.size) (
    Found-restores d n (trickle_loop f n d) a i v
      λ e m lt w. trickle_loop_restores f n d e m (omega (arith, v.inside)) w)

-- `trickle_down` turns a slice with one entry out of order with what is below it into a heap of the
-- same tokens.
pub trickle_down_restores :
    (n : ℕ) (a : List LinkToken) (i : ℕ)
    → DownInv (is_min_level i) n a i
    → Yields (Sorted a) (trickle_down n a i)
unfolding trickle_down trickle_down_min trickle_down_max
trickle_down_restores n a i v = elim (Bool-cases (is_min_level i)) [
  | inl side ↦ rw side (trickle_loop_restores (n + 1) n true a i (omega arith) (rw side at v))
  | inr side ↦ rw side (trickle_loop_restores (n + 1) n false a i (omega arith) (rw side at v))
]
