-- ===== src/Pool/FileStack.antt =====
-- Submit with the stack of fileQueue.go for its Stack interface.
use wfts.Common.{
  ltb, if◌then◌else◌, le→not-ltb, Bool-cases, length, Result, ok, err, panic, ℕ, ◌%◌, ◌≤◌, ◌≡◌,
  refl, ◌↔◌, inl, inr, false, Option, none, some, List, arith,
}
use wfts.Common.Partial.{◌>>=◌, Yields-inv}
use wfts.FileQueue.{Stack, Faults, Error, push}
use wfts.FileQueue.Laws.{push-panic}
use wfts.Heap.{LinkToken, MinMaxHeap, get_min, delete_min}
use wfts.Heap.Operations.{IsValid, get_min-none, insert_correct}
use wfts.Heap.Deletion.{Removed, delete_min_correct}
use wfts.Pool.{WorkerPool, store, submit_full, submit}

-- What is left of the stack, `none` for a panic; the pool drops an error.
abbrev pub after_push : Stack × Result Error (Unit {0}) → Option Stack
after_push (st, ok u) = some st
after_push (st, err e) = some st
after_push (st, panic) = none

abbrev pub file_push : Faults → Stack → List ℕ → Option Stack
file_push fs st bytes = after_push (push fs st bytes)

-- The bytes, if there are some, make Push panic.
abbrev pub TooLong : Faults → Stack → Option (List ℕ) → Type 0
TooLong fs st none = ⊥
TooLong fs st (some bytes) =
    (fs.seek_end ≡ false) × (length st.rw_file ≤ st.m_offset) × (65534 ≤ length bytes % 65536)

after_push-none : (r : Stack × Result Error (Unit {0})) → (after_push r ≡ none) ↔ (r.1 ≡ panic)
after_push-none (st, ok u) = (λ h. cc, λ h. cc)
after_push-none (st, err e) = (λ h. cc, λ h. cc)
after_push-none (st, panic) = (λ h. refl, λ h. refl)

store_bytes-none :
    (fs : Faults) (st : Stack) (bytes : Option (List ℕ))
    → (elim bytes [ none ↦ some st | some b ↦ file_push fs st b ] ≡ none) ↔ TooLong fs st bytes
store_bytes-none fs st none = (λ h. absurd cc, λ h. absurd h)
store_bytes-none fs st (some b) =
    let (panics, fits) = after_push-none (push fs st b) in
    let (long, back) = (push-panic fs st b).0 in (λ h. long (panics h), λ h. fits (back h))

-- A chain fails where its first call does, if the second does not.
bind-none :
    {A B : Type 0} (x : Option A) (f : A → B) → ((x >>= λ a. some (f a)) ≡ none) ↔ (x ≡ none)
bind-none none f = (λ h. refl, λ h. refl)
bind-none (some a) f = (λ h. absurd cc, λ h. absurd cc)

module _ (serialize : LinkToken → Option (List ℕ)) (fs : Faults) where
  store-none :
      (t : LinkToken) (st : Stack)
      → (store serialize (file_push fs) t st ≡ none) ↔ TooLong fs st (serialize t)
  unfolding store
  store-none t st = store_bytes-none fs st (serialize t)

  submit_full-none :
      (wp : WorkerPool Stack) (task w : LinkToken)
      → IsValid wp.heap
      → get_min wp.heap ≡ some (some w)
      → (submit_full serialize (file_push fs) wp task (some w) ≡ none)
        ↔ TooLong fs wp.collection (serialize (if ltb w.priority task.priority then w else task))
  unfolding submit_full
  submit_full-none wp task w valid looked = elim (Bool-cases (ltb w.priority task.priority)) [
    | inl better ↦
        let (r, removed, gone) : (r : MinMaxHeap × Option LinkToken) × (delete_min wp.heap ≡ some r)
            × Removed wp.heap 0 r =
          elim (delete_min_correct wp.heap valid) [
            | inl (empty, _) ↦
                let no_items : length wp.heap.items ≡ 0 = omega (arith, empty, valid.counted) in
                let nothing = get_min-none wp.heap no_items in absurd cc
            | inr (_, _, yielded) ↦ Yields-inv yielded
          ] in
        let (h, added, fine) = Yields-inv (insert_correct r.0 task gone.valid) in
        let (one, two) = bind-none (store serialize (file_push fs) w wp.collection) _ in
        let (three, four) = store-none w wp.collection in
        rw better (rw removed (rw added (λ e. three (one e), λ e. two (four e))))
    | inr no_better ↦
        let (one, two) = bind-none (store serialize (file_push fs) task wp.collection) _ in
        let (three, four) = store-none task wp.collection in
        rw no_better (λ e. three (one e), λ e. two (four e))
  ]

  -- Where the buffer is full and the queue is a valid heap that is not empty, Submit over the stack in the file panics exactly when the
  -- token that goes to the stack, which is the queue's first one if the task has a greater priority and else the
  -- task, is serialized to 65534 or 65535 bytes modulo 2 ^ 16, the file is within its limit and its end is found.
  pub submit-panics :
      (wp : WorkerPool Stack) (task w : LinkToken)
      → IsValid wp.heap
      → wp.queue_capacity ≤ wp.buffered
      → get_min wp.heap ≡ some (some w)
      → (submit serialize (file_push fs) wp task ≡ none)
        ↔ TooLong fs wp.collection (serialize (if ltb w.priority task.priority then w else task))
  unfolding submit
  submit-panics wp task w valid full looked =
      rw (le→not-ltb wp.buffered wp.queue_capacity full, looked)
        (submit_full-none wp task w valid looked)
