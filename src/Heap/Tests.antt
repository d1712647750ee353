-- ===== src/Heap/Tests.antt =====
-- Tests of the heap, and its laws at a heap of three tokens.
use wfts.Common.{
  length, ℕ, zero, suc, ◌≤◌, ◌<◌, ◌≡◌, refl, ◌⊎◌, true, Option, none, some, List, [], ◌∷◌, map,
  arith,
}
use wfts.Common.Partial.{◌>>=◌, Yields}
use wfts.Heap.{
  LinkToken, MinMaxHeap, empty_heap, is_min_level, level, log2_floor, compare_at, swap, bubble_loop,
  bubble_up_min, bubble_up_max, bubble_up, pick_extreme, extreme_loop, extreme_descendant,
  is_grandchild, trickle_round, trickle_loop, trickle_down_min, trickle_down_max, trickle_down,
  insert, get_min, max_index, get_max, delete_at, delete_min, delete_max, tokens,
}
use wfts.Heap.Slice.{key, token_at}
use wfts.Heap.Order.{ParentOk}
use wfts.Heap.Operations.{
  IsValid, Holds, Looked, IsGreatest, insert_correct, get_min_least, get_max-IsGreatest,
}
use wfts.Heap.Deletion.{Removed, delete_min_correct, delete_max_correct}

program : Unit {0}
unfolding is_min_level level log2_floor compare_at swap bubble_loop bubble_up_min bubble_up_max
    bubble_up pick_extreme extreme_loop extreme_descendant is_grandchild trickle_round trickle_loop
    trickle_down_min trickle_down_max trickle_down insert get_min max_index get_max delete_at
    delete_min delete_max tokens
program = tt

abbrev token : ℕ → LinkToken
token p = record { link = []; priority = p; depth = 0; same_domain = true }

abbrev insert_all : List ℕ → MinMaxHeap → Option MinMaxHeap
insert_all [] h = some h
insert_all (p ∷ ps) h = insert h (token p) >>= insert_all ps

abbrev priorities : MinMaxHeap → List ℕ
priorities h = map (λ t. t.priority) h.items

-- The heap of the repository's test after its insertions.
insert_all_test :
    (insert_all (10 ∷ 4 ∷ 15 ∷ 20 ∷ 0 ∷ 8 ∷ []) empty_heap >>= λ h. some (priorities h))
    ≡ some (0 ∷ 20 ∷ 15 ∷ 10 ∷ 4 ∷ 8 ∷ [])
unfolding program
insert_all_test = refl

delete_max_test :
    (insert_all (10 ∷ 4 ∷ 15 ∷ 20 ∷ 0 ∷ 8 ∷ []) empty_heap >>= delete_max >>= λ r.
    some (priorities r.0))
    ≡ some (0 ∷ 10 ∷ 15 ∷ 8 ∷ 4 ∷ [])
unfolding program
delete_max_test = refl

abbrev three : MinMaxHeap
three = record { len = 3; items = token 1 ∷ token 9 ∷ token 5 ∷ [] }

three_parents : (c : ℕ) → 0 < c → c < 3 → ParentOk three.items c
unfolding program key
three_parents zero p q = absurd (omega arith)
three_parents (suc zero) p q = omega arith
three_parents (suc (suc zero)) p q = omega arith
three_parents (suc (suc (suc c))) p q = absurd (omega arith)

three-IsValid : IsValid three
three-IsValid = record {
  counted = refl;
  heap = record { parents = three_parents; grandparents = λ c p q. absurd (omega arith) };
}

insert_correct_example : Yields (Holds (token 0 ∷ three.items)) (insert three (token 0))
insert_correct_example = insert_correct three (token 0) three-IsValid

get_min_least_example :
    Yields
      (Looked three (λ t.
        (i : ℕ) × (i < 3)
        × (t ≡ token_at three.items i)
        × ((c : ℕ) → c < 3 → t.priority ≤ key three.items c)))
      (get_min three)
get_min_least_example = get_min_least three three-IsValid

get_max-IsGreatest_example :
    Yields
      (Looked three (λ t. (i : ℕ) × IsGreatest three.items i × (t ≡ token_at three.items i)))
      (get_max three)
get_max-IsGreatest_example = get_max-IsGreatest three three-IsValid

delete_min_correct_example :
    ((three.len ≡ 0) × (delete_min three ≡ some (three, none)))
    ⊎ ((0 < three.len)
        × ((c : ℕ) → c < length three.items → key three.items 0 ≤ key three.items c)
        × Yields (Removed three 0) (delete_min three))
delete_min_correct_example = delete_min_correct three three-IsValid

delete_max_correct_example :
    ((three.len ≡ 0) × (delete_max three ≡ some (three, none)))
    ⊎ ((0 < three.len)
        × Yields (λ r. (i : ℕ) × IsGreatest three.items i × Removed three i r) (delete_max three))
delete_max_correct_example = delete_max_correct three three-IsValid
