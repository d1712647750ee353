-- ===== src/Heap/Order.antt =====
-- The levels of the tree, and the min-max order as conditions on each entry against its parent and
-- its grandparent.
use wfts.Common.{
  length, ℕ, zero, suc, ◌+◌, ◌-◌, ◌/◌, ◌≤◌, ◌<◌, ◌≡◌, refl, Bool, true, false, not, List, arith,
}
use mathlib.Core.List.{Perm}
use wfts.Heap.{LinkToken, log2_floor, level, is_min_level}
use wfts.Heap.Slice.{key}

log2_floor-fuel : (f g n : ℕ) → n ≤ f → n ≤ g → log2_floor f n ≡ log2_floor g n
unfolding log2_floor
log2_floor-fuel zero zero n p q = refl
log2_floor-fuel zero (suc g) n p q = ground arith
log2_floor-fuel (suc f) zero n p q = ground arith
log2_floor-fuel (suc f) (suc g) n p q =
    ground (arith, log2_floor-fuel f g (n / 2) (omega arith) (omega arith))

abbrev pub parent : ℕ → ℕ
parent c = (c - 1) / 2

abbrev pub grandparent : ℕ → ℕ
grandparent c = (c - 3) / 4

level-parent : (c : ℕ) → 0 < c → level c ≡ suc (level (parent c))
unfolding level log2_floor
level-parent zero h = absurd (omega arith)
level-parent (suc c) h =
    let e : suc c + 1 ≡ suc (suc c) = omega arith in
    let half : suc (suc c) / 2 ≡ parent (suc c) + 1 = omega arith in
    rw (e, log2_floor, half)
      (ground (arith, log2_floor-fuel (suc c) (parent (suc c) + 1) (parent (suc c) + 1)))

-- Min levels and max levels alternate.
pub is_min_level-parent : (c : ℕ) → 0 < c → is_min_level c ≡ not (is_min_level (parent c))
unfolding is_min_level
is_min_level-parent c h = ground (arith, level-parent c h)

pub is_min_level-grandparent : (c : ℕ) → 3 ≤ c → is_min_level c ≡ is_min_level (grandparent c)
is_min_level-grandparent c h =
    let e : parent (parent c) ≡ grandparent c = omega arith in
    let far = rw e at (is_min_level-parent (parent c) (omega arith)) in
    ground (arith, is_min_level-parent c (omega arith), far)

-- `x` may stand nearer to the root than `y`, on a min level (`true`) or on a max level.
abbrev pub Le : Bool → ℕ → ℕ → Type 0
Le true x y = x ≤ y
Le false x y = y ≤ x

-- On a min level an entry is at most its parent and at least its grandparent; on a max level the
-- other way round.
abbrev pub ParentOk : List LinkToken → ℕ → Type 0
ParentOk a c = Le (is_min_level c) (key a c) (key a (parent c))

abbrev pub GrandparentOk : List LinkToken → ℕ → Type 0
GrandparentOk a c = Le (is_min_level c) (key a (grandparent c)) (key a c)

pub record IsHeap (a : List LinkToken) : Type 0 where
  pub parents : (c : ℕ) → 0 < c → c < length a → ParentOk a c
  pub grandparents : (c : ℕ) → 3 ≤ c → c < length a → GrandparentOk a c

-- `b` is a heap of the tokens of `a`.
abbrev pub Sorted : List LinkToken → List LinkToken → Type 0
Sorted a b = IsHeap b × Perm b a
