-- ===== src/Pool/Submit.antt =====
-- Submit: nothing is lost, and a full queue keeps the tasks of the highest priorities.
use wfts.Common.{
  ltb, leb, lt→ltb, le→not-ltb, leb→le, Bool-cases, length, ℕ, suc, ◌+◌, ◌≤◌, ◌<◌, ◌≡◌, refl, ◌∙◌,
  inl, inr, Bool, true, ◌&&◌, Option, some, List, [], ◌∷◌, arith, and_left, and_right,
}
use mathlib.Core.List.Perm
use mathlib.Core.List.{Perm, Permᴰ}
use mathlib.Core.Logic.{∥∥₁_elim}
use mathlib.Core.Bool.{Bool-set}
use wfts.Common.Partial.{Yields-inv, Yields, yields, Yields-bind}
use wfts.Heap.{LinkToken, delete_min}
use wfts.Heap.Slice.{token_at, key}
use wfts.Heap.Operations.{IsValid, insert_correct, get_min-root, get_min-none}
use wfts.Heap.Deletion.{Removed, delete_min_correct}
use wfts.Pool.{WorkerPool, store, submit_full, submit}

-- Every token has a priority of `p` or more.
unfoldable pub all_from : ℕ → List LinkToken → Bool
all_from p [] = true
all_from p (t ∷ ts) = leb p t.priority && all_from p ts

all_from-Permᴰ : (p : ℕ) {a b : List LinkToken} → Permᴰ a b → all_from p a ≡ all_from p b
unfolding all_from
all_from-Permᴰ p Permᴰ.nil = refl
all_from-Permᴰ p (Permᴰ.cons e rest) = ground (arith, e, all_from-Permᴰ p rest)
all_from-Permᴰ p (Permᴰ.swap e1 e2) = ground (arith, e1, e2)
all_from-Permᴰ p (Permᴰ.trans before after) = all_from-Permᴰ p before ∙ all_from-Permᴰ p after

all_from-perm : (p : ℕ) {a b : List LinkToken} → Perm a b → all_from p a ≡ all_from p b
all_from-perm p same = ∥∥₁_elim same (Bool-set _ _) (all_from-Permᴰ p)

all_from-key :
    (p : ℕ) (a : List LinkToken) → ((c : ℕ) → c < length a → p ≤ key a c) → all_from p a ≡ true
unfolding all_from key
all_from-key p [] h = refl
all_from-key p (t ∷ a) h =
    let first : p ≤ t.priority = h 0 (omega arith) in
    let rest = all_from-key p a (λ c k. h (suc c) (omega arith)) in ground (arith, first, rest)

all_from-lower : (p q : ℕ) (a : List LinkToken) → p ≤ q → all_from q a ≡ true → all_from p a ≡ true
unfolding all_from
all_from-lower p q [] le h = refl
all_from-lower p q (t ∷ a) le h =
    let rest = all_from-lower p q a le (and_right (leb q t.priority) (all_from q a) h) in
    let first = leb→le q t.priority (and_left (leb q t.priority) (all_from q a) h) in
    ground (arith, rest, first, le)

module _ {S : Type 0} (serialize : LinkToken → Option (List ℕ)) (push : S → List ℕ → Option S) where
  -- The task is in the queue, which had room for it.
  pub record Queued (wp : WorkerPool S) (task : LinkToken) (new : WorkerPool S) : Type 0 where
    pub valid : IsValid new.heap
    pub same : Perm new.heap.items (task ∷ wp.heap.items)
    pub counted : new.buffered ≡ wp.buffered + 1
    pub bounded : new.buffered ≤ new.queue_capacity
    pub stack : new.collection ≡ wp.collection

  -- One token of a least priority among the queue's and the task is in the stack, if it can be
  -- serialized, and the others are in the queue.
  pub record Spilled (wp : WorkerPool S) (task : LinkToken) (new : WorkerPool S) : Type 0 where
    pub gone : LinkToken
    pub valid : IsValid new.heap
    pub same : Perm (gone ∷ new.heap.items) (task ∷ wp.heap.items)
    pub least : all_from gone.priority new.heap.items ≡ true
    pub counted : new.buffered ≡ wp.buffered
    pub stack : store serialize push gone wp.collection ≡ some new.collection

  -- No Push to the stack panics, as the stack of fileQueue.go does on 65534 bytes.
  abbrev pub Stores : S → Type 0
  Stores st = (t : LinkToken) → Yields (λ new. Unit {0}) (store serialize push t st)

  least-perm :
      (p : ℕ) (t : LinkToken) (a b : List LinkToken)
      → Perm (t ∷ a) b
      → all_from p b ≡ true
      → all_from p a ≡ true
  unfolding all_from
  least-perm p t a b same h = and_right (leb p t.priority) (all_from p a) (all_from-perm p same ∙ h)

  spilled_least :
      (p : ℕ) (task : LinkToken) (a b : List LinkToken)
      → Perm b (task ∷ a)
      → ltb p task.priority ≡ true
      → all_from p a ≡ true
      → all_from p b ≡ true
  unfolding all_from
  spilled_least p task a b same better rest =
      let whole : (leb p task.priority && all_from p a) ≡ true = ground (arith, better, rest) in
      all_from-perm p same ∙ whole

  submit_full-Spilled :
      (wp : WorkerPool S) (task : LinkToken)
      → IsValid wp.heap
      → 0 < length wp.heap.items
      → Stores wp.collection
      → Yields
          (Spilled wp task)
          (submit_full serialize push wp task (some (token_at wp.heap.items 0)))
  unfolding submit_full all_from
  submit_full-Spilled wp task valid some_items stores =
      let worst = token_at wp.heap.items 0 in
      let (root, removed) : ((c : ℕ)
            → c < length wp.heap.items
            → key wp.heap.items 0 ≤ key wp.heap.items c)
          × Yields (Removed wp.heap 0) (delete_min wp.heap) =
        elim (delete_min_correct wp.heap valid) [
          | inl (empty, _) ↦ absurd (omega (arith, empty, valid.counted))
          | inr (_, root, removed) ↦ (root, removed)
        ] in
      let all_worst : all_from worst.priority wp.heap.items ≡ true =
        all_from-key worst.priority wp.heap.items (unfold key in root) in
      elim (Bool-cases (ltb worst.priority task.priority)) [
        | inl better ↦ rw better (
            Yields-bind removed λ r gone.
              Yields-bind (insert_correct r.0 task gone.valid) λ h added.
                let (st, stored, any) = Yields-inv (stores worst) in
                rw stored (
                  yields (record {
                    gone = worst;
                    valid = added.0;
                    same =
                        Perm.trans (Perm.cons worst added.1)
                          (Perm.trans (Perm.swap _ _ _) (Perm.cons task gone.same));
                    least = spilled_least worst.priority task r.0.items h.items added.1 better (
                        least-perm worst.priority worst r.0.items wp.heap.items gone.same
                          all_worst);
                    counted = refl;
                    stack = stored;
                  })))
        | inr no_better ↦
            let no_better_le : task.priority ≤ worst.priority = ground (arith, no_better) in
            let (st, stored, any) = Yields-inv (stores task) in
            rw no_better (
              rw stored (
                yields (record {
                  gone = task;
                  valid = valid;
                  same = Perm.refl _;
                  least =
                      all_from-lower task.priority worst.priority wp.heap.items no_better_le
                        all_worst;
                  counted = refl;
                  stack = stored;
                })))
      ]

  -- Submit on a valid heap. If the buffer has room, the task joins the queue and the buffer stays within its
  -- capacity. If not, the queue is not empty and no Push to the stack panics, then a token of the least priority
  -- among the queue's and the task goes to the stack, if it can be serialized, and the others are the queue. With no
  -- room and an empty queue the task is dropped.
  pub submit_correct :
      (wp : WorkerPool S) (task : LinkToken)
      → IsValid wp.heap
      → (wp.buffered < wp.queue_capacity → Yields (Queued wp task) (submit serialize push wp task))
        × (wp.queue_capacity ≤ wp.buffered
            → 0 < length wp.heap.items
            → Stores wp.collection
            → Yields (Spilled wp task) (submit serialize push wp task))
        × (wp.queue_capacity ≤ wp.buffered
            → length wp.heap.items ≡ 0
            → submit serialize push wp task ≡ some wp)
  unfolding submit submit_full
  submit_correct wp task valid = (
    λ room. rw (lt→ltb wp.buffered wp.queue_capacity room) (
        Yields-bind (insert_correct wp.heap task valid) λ h added. yields (record {
          valid = added.0;
          same = added.1;
          counted = refl;
          bounded = omega arith;
          stack = refl;
        })),
    λ no_room some_items stores.
        rw (le→not-ltb wp.buffered wp.queue_capacity no_room, get_min-root wp.heap some_items)
          (submit_full-Spilled wp task valid some_items stores),
    λ no_room empty.
        rw (le→not-ltb wp.buffered wp.queue_capacity no_room, get_min-none wp.heap empty) refl,
  )
