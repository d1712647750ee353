-- ===== src/FileQueue/Tests.antt =====
-- Tests of the file stack, and the laws at concrete inputs.
use wfts.Common.{
  length, replicate, ok, err, panic, ℕ, ◌%◌, ◌≤◌, ◌≡◌, refl, ◌↔◌, false, List, [], ◌∷◌, arith,
}
use wfts.FileQueue.{Stack, no_faults, corrupted, push, pop}
use wfts.FileQueue.Laws.{pop-push, push-panic}
use wfts.FileQueue.Refinement.{Call, push_call, pop_call, run, spec_run, file_of, run-refines}

abbrev small_stack : Stack
small_stack = record { rw_file = 9 ∷ 1 ∷ 0 ∷ []; m_offset = 100 }

pop_small : pop no_faults small_stack ≡ (record small_stack { rw_file = [] }, ok (9 ∷ []))
unfolding pop
pop_small = refl

pop_corrupted :
    pop no_faults (record small_stack { rw_file = 9 ∷ 7 ∷ 0 ∷ [] })
    ≡ (record small_stack { rw_file = 9 ∷ 7 ∷ 0 ∷ [] }, err corrupted)
unfolding pop
pop_corrupted = refl

pop-push_example :
    pop no_faults (push no_faults small_stack (5 ∷ 6 ∷ [])).0 ≡ (small_stack, ok (5 ∷ 6 ∷ []))
pop-push_example = pop-push small_stack (5 ∷ 6 ∷ []) (omega arith) (omega arith)

push-panic_example :
    ((push no_faults small_stack (replicate 65534 0)).1 ≡ panic
      ↔ (no_faults.seek_end ≡ false)
        × (length small_stack.rw_file ≤ small_stack.m_offset)
        × (65534 ≤ length (replicate {A = ℕ} 65534 0) % 65536))
    × ((push no_faults small_stack (replicate 65534 0)).1 ≡ panic
        → (push no_faults small_stack (replicate 65534 0)).0 ≡ small_stack)
push-panic_example = push-panic no_faults small_stack (replicate 65534 0)

abbrev calls : List Call
calls = push_call (1 ∷ 2 ∷ []) ∷ push_call [] ∷ pop_call ∷ pop_call ∷ pop_call ∷ []

run-refines_example :
    run (file_of 10 []) calls ≡ (file_of 10 (spec_run 10 [] calls).0, (spec_run 10 [] calls).1)
run-refines_example = run-refines 10 [] calls tt (omega arith)
