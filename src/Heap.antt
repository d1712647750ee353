-- ===== src/Heap.antt =====
-- internal/utils/scheduler/mmheap.go: the min-max heap of the crawler's scheduler, and the link
-- tokens of internal/model/document.go that it holds. `none` is a panic of the runtime (an index
-- out of range). A priority is a float64 that the program only compares here, so it is modelled by
-- its place in the order of the float64 values that are not NaN.
use wfts.Common.{
  ltb, leb, if◌then◌else◌, ◌==◌, length, get_elem?, set, take, replicate, ℕ, zero, suc, ◌+◌, ◌-◌,
  ◌*◌, ◌/◌, ◌%◌, Bool, true, false, not, Option, none, some, List, [], ◌∷◌, ◌++◌, map,
}
pub mod Slice
pub mod Order
pub mod Up
pub mod Bubble
pub mod Extreme
pub mod Down
pub mod Trickle
pub mod Bounds
pub mod Operations
pub mod Deletion
mod Tests
use wfts.Common.Partial.{◌>>=◌}

pub record LinkToken : Type 0 where
  pub link : List ℕ
  pub priority : ℕ
  pub depth : ℕ
  pub same_domain : Bool

pub record MinMaxHeap : Type 0 where
  pub len : ℕ
  pub items : List LinkToken

-- `newMinMaxHeap`
abbrev pub empty_heap : MinMaxHeap
empty_heap = record { len = 0; items = [] }

-- The comparison of the loops for the least (`true`) and for the greatest (`false`) priority.
abbrev pub before : Bool → ℕ → ℕ → Bool
before true x y = ltb x y
before false x y = ltb y x

pub compare_at : Bool → List LinkToken → ℕ → ℕ → Option Bool
compare_at d a i j = do x ← get_elem? a i; y ← get_elem? a j; some (before d x.priority y.priority)

pub swap : List LinkToken → ℕ → ℕ → Option (List LinkToken)
swap a i j = do y ← get_elem? a j; x ← get_elem? a i; some (set (set a i y) j x)

-- `math.Floor(math.Log2(float64(i + 1)))`, by halving; the argument is its own fuel.
pub log2_floor : ℕ → ℕ → ℕ
log2_floor zero n = 0
log2_floor (suc f) n = let rest = log2_floor f (n / 2) in if ltb n 2 then 0 else suc rest

pub level : ℕ → ℕ
level i = log2_floor (i + 1) (i + 1)

pub is_min_level : ℕ → Bool
is_min_level i = level i % 2 == 0

-- The loops of bubbleUpMin and bubbleUpMax, which differ in the comparison.
pub bubble_loop : ℕ → Bool → List LinkToken → ℕ → Option (List LinkToken)
bubble_loop zero d a i = none
bubble_loop (suc f) d a i =
    let gp = (i - 3) / 4 in
    let rise = swap a i gp >>= λ b. bubble_loop f d b gp in
    let step = compare_at d a i gp >>= λ better. if better then rise else some a in
    if ltb i 3 then some a else step

pub bubble_up_min : List LinkToken → ℕ → Option (List LinkToken)
bubble_up_min a i = bubble_loop (i + 1) true a i

pub bubble_up_max : List LinkToken → ℕ → Option (List LinkToken)
bubble_up_max a i = bubble_loop (i + 1) false a i

pub bubble_up : List LinkToken → ℕ → Option (List LinkToken)
bubble_up a i =
    let p = (i - 1) / 2 in
    let on_min : Option (List LinkToken) = do
      above ← compare_at false a i p
      if above then (swap a i p >>= λ b. bubble_up_max b p) else bubble_up_min a i
    in let on_max : Option (List LinkToken) = do
      below ← compare_at true a i p
      if below then (swap a i p >>= λ b. bubble_up_min b p) else bubble_up_max a i
      in if i == 0 then some a else if is_min_level i then on_min else on_max

-- The indices of `append(children, grand...)`.
abbrev pub descendants : ℕ → List ℕ
descendants i =
    (2 * i + 1) ∷ (2 * i + 2) ∷ (4 * i + 3) ∷ (4 * i + 4) ∷ (4 * i + 5) ∷ (4 * i + 6) ∷ []

-- One round of the loop of extremeDescendant; `best` is `none` for -1.
pub pick_extreme : ℕ → Bool → List LinkToken → Option ℕ → ℕ → Option (Option ℕ)
pick_extreme n d a best idx =
    let first : Option (Option ℕ) = some (some idx) in
    let improve =
      λ (b : ℕ). compare_at d a idx b >>= λ better. some (some (if better then idx else b)) in
    if leb n idx then some best else elim best [ none ↦ first | some b ↦ improve b ]

pub extreme_loop : ℕ → Bool → List LinkToken → Option ℕ → List ℕ → Option (Option ℕ)
extreme_loop n d a best [] = some best
extreme_loop n d a best (idx ∷ rest) =
    pick_extreme n d a best idx >>= λ b. extreme_loop n d a b rest

pub extreme_descendant : ℕ → Bool → List LinkToken → ℕ → Option (Option ℕ)
extreme_descendant n d a i = extreme_loop n d a none (descendants i)

pub is_grandchild : ℕ → ℕ → Bool
is_grandchild i j = leb (4 * i + 3) j

-- A round of trickleDownMin (`true`) or trickleDownMax, once the extreme descendant is found; `next`
-- is the rest of the loop.
pub trickle_round :
    (List LinkToken → ℕ → Option (List LinkToken))
    → Bool
    → List LinkToken
    → ℕ
    → Option ℕ
    → Option (List LinkToken)
trickle_round next d a i none = some a
trickle_round next d a i (some m) = do
  better ← compare_at d a m i
  let p = (m - 1) / 2
  let deeper : Option (List LinkToken) = do
    b ← swap a i m
    crossed ← compare_at (not d) b m p
    c ← if crossed then swap b m p else some b
    next c m
  if is_grandchild i m
      then (if better then deeper else some a)
      else (if better then swap a i m else some a)

-- `n` is h.len.
pub trickle_loop : ℕ → ℕ → Bool → List LinkToken → ℕ → Option (List LinkToken)
trickle_loop zero n d a i = none
trickle_loop (suc f) n d a i =
    extreme_descendant n d a i >>= trickle_round (trickle_loop f n d) d a i

pub trickle_down_min : ℕ → List LinkToken → ℕ → Option (List LinkToken)
trickle_down_min n a i = trickle_loop (n + 1) n true a i

pub trickle_down_max : ℕ → List LinkToken → ℕ → Option (List LinkToken)
trickle_down_max n a i = trickle_loop (n + 1) n false a i

pub trickle_down : ℕ → List LinkToken → ℕ → Option (List LinkToken)
trickle_down n a i = if is_min_level i then trickle_down_min n a i else trickle_down_max n a i

pub insert : MinMaxHeap → LinkToken → Option MinMaxHeap
insert h v = do
  let grown = h.items ++ v ∷ []
  a ← bubble_up grown (length grown - 1)
  some (record { len = h.len + 1; items = a })

unfoldable pub get_min : MinMaxHeap → Option (Option LinkToken)
get_min h =
    let first : Option (Option LinkToken) = (do x ← get_elem? h.items 0; some (some x)) in
    if length h.items == 0 then some none else first

-- The index of the greatest token of a heap with more than one.
pub max_index : ℕ → List LinkToken → Option ℕ
max_index n a =
    let choose : Option ℕ = do first ← compare_at false a 1 2; some (if first then 1 else 2)
    in if n == 2 then some 1 else choose

unfoldable pub get_max : MinMaxHeap → Option (Option LinkToken)
get_max h =
    let n = length h.items in
    let root : Option (Option LinkToken) = (do x ← get_elem? h.items 0; some (some x)) in
    let child : Option (Option LinkToken) = do
      idx ← max_index n h.items
      x ← get_elem? h.items idx
      some (some x)
    in if n == 0 then some none else if n == 1 then root else child

-- `last` takes the place of the token at `idx`, the slice is cut, and the heap is repaired.
unfoldable pub delete_at : MinMaxHeap → ℕ → ℕ → Option (MinMaxHeap × Option LinkToken)
delete_at h idx last = do
  x ← get_elem? h.items idx
  y ← get_elem? h.items last
  let cut = take last (set h.items idx y)
  let repair = trickle_down (h.len - 1) cut idx
  a ← if ltb idx (length cut) then repair else some cut
  some (record { len = h.len - 1; items = a }, some x)

pub delete_min : MinMaxHeap → Option (MinMaxHeap × Option LinkToken)
delete_min h = if h.len == 0 then some (h, none) else delete_at h 0 (length h.items - 1)

unfoldable pub delete_max : MinMaxHeap → Option (MinMaxHeap × Option LinkToken)
delete_max h =
    let index = if h.len == 1 then some 0 else max_index h.len h.items in
    let rest : Option (MinMaxHeap × Option LinkToken) = do idx ← index; delete_at h idx (h.len - 1)
    in if h.len == 0 then some (h, none) else rest

-- `tokens`: `make` with a length, and then `append`, so that h.len nil pointers come first.
pub tokens : MinMaxHeap → List (Option LinkToken)
tokens h = replicate h.len none ++ map some (take h.len h.items)
