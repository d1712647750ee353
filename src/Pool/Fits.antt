-- ===== src/Pool/Fits.antt =====
-- The counts of the pool, and what Submit does to them.
use wfts.Common.{
  ltb, ltb→lt, Bool-cases, length, ℕ, ◌+◌, ◌≤◌, ◌<◌, ◌≡◌, refl, sym, ◌∙◌, subst, inl, inr, Option,
  none, some, List, arith,
}
use wfts.Common.Partial.{◌>>=◌, >>=-eq-some, Yields, Yields-inv}
use wfts.Heap.{LinkToken, MinMaxHeap, insert, get_min, delete_min, delete_max}
use wfts.Heap.Slice.{length-perm}
use wfts.Heap.Operations.{IsValid, get_min-none, insert_correct}
use wfts.Heap.Deletion.{delete_min_correct, delete_max_correct}
use wfts.Pool.{WorkerPool, store, submit_full, submit}

-- What a call yields, where it yields this.
pub Yields_at : {A : Type 0} {P : A → Type 0} {r : Option A} {x : A} → Yields P r → r ≡ some x → P x
Yields_at {A} {P} {r} {x} known e =
    let (y, is_y, holds) = Yields-inv known in let same : y ≡ x = cc in subst P same holds

-- The heap has as many tasks as there are entries in `buf` and workers that received one, and the counter of `wg`
-- is the number of these tasks and of those that are taken before their Done.
pub record Fits {S : Type 0} (wp : WorkerPool S) (called started : ℕ) : Type 0 where
  pub valid : IsValid wp.heap
  pub size : wp.heap.len ≡ wp.buffered + called
  pub counter : wp.waiting ≡ wp.heap.len + started
  pub room : wp.buffered ≤ wp.queue_capacity

pub insert-len :
    (h new : MinMaxHeap) (task : LinkToken)
    → IsValid h
    → insert h task ≡ some new
    → IsValid new × (new.len ≡ h.len + 1)
insert-len h new task valid e =
    let (fine, same) = Yields_at (insert_correct h task valid) e in
    (fine, omega (arith, fine.counted, valid.counted, length-perm same))

pub delete_max-len :
    (h : MinMaxHeap) (task : LinkToken) (left : MinMaxHeap × Option LinkToken)
    → IsValid h
    → delete_max h ≡ some left
    → 0 < h.len
    → IsValid left.0 × (h.len ≡ left.0.len + 1)
delete_max-len h task left valid e some_items = elim (delete_max_correct h valid) [
  | inl (empty, _) ↦ absurd (omega arith)
  | inr (_, removed) ↦
      let (i, most, gone) = Yields_at removed e in
      (gone.valid, omega (arith, gone.valid.counted, valid.counted, length-perm gone.same))
]

delete_min-len :
    (h : MinMaxHeap) (left : MinMaxHeap × Option LinkToken)
    → IsValid h
    → delete_min h ≡ some left
    → 0 < h.len
    → IsValid left.0 × (h.len ≡ left.0.len + 1)
delete_min-len h left valid e some_items = elim (delete_min_correct h valid) [
  | inl (empty, _) ↦ absurd (omega arith)
  | inr (_, _, removed) ↦
      let gone = Yields_at removed e in
      (gone.valid, omega (arith, gone.valid.counted, valid.counted, length-perm gone.same))
]

submit_full-Fits :
    {S : Type 0} (serialize : LinkToken → Option (List ℕ)) (push : S → List ℕ → Option S)
    (wp new : WorkerPool S) (task : LinkToken) (called started : ℕ) (worst : Option LinkToken)
    → Fits wp called started
    → get_min wp.heap ≡ some worst
    → submit_full serialize push wp task worst ≡ some new
    → Fits new called started
unfolding submit_full
submit_full-Fits serialize push wp new task called started none fits looked e =
    let same : wp ≡ new = cc in subst (λ x. Fits x called started) same fits
submit_full-Fits serialize push wp new task called started (some w) fits looked e =
    let some_items : 0 < wp.heap.len = elim (Bool-cases (ltb 0 wp.heap.len)) [
      | inl more ↦ ltb→lt 0 wp.heap.len more
      | inr empty ↦
          let no_items : length wp.heap.items ≡ 0 = ground (arith, empty, fits.valid.counted) in
          let nothing = get_min-none wp.heap no_items in absurd cc
    ] in
    elim (Bool-cases (ltb w.priority task.priority)) [
      | inl better ↦
          let replaced : (do
            r ← delete_min wp.heap
            h ← insert r.0 task
            st ← store serialize push w wp.collection
            some (record wp { heap = h; collection = st }))
              ≡ some new =
            sym (rw (submit_full, better) refl) ∙ e in
          let (left, removed, added) = >>=-eq-some (delete_min wp.heap) _ replaced in
          let (h, inserted, pushed) = >>=-eq-some (insert left.0 task) _ added in
          let (st, kept, last) = >>=-eq-some (store serialize push w wp.collection) _ pushed in
          let (fine, less) = delete_min-len wp.heap left fits.valid removed some_items in
          let (valid, len) = insert-len left.0 h task fine inserted in
          let same : record wp { heap = h; collection = st } ≡ new = cc in
          subst (λ x. Fits x called started) same
            (record {
              valid = valid;
              size = omega (arith, len, less, fits.size);
              counter = omega (arith, len, less, fits.counter);
              room = fits.room;
            })
      | inr no_better ↦
          let stored : (do
            st ← store serialize push task wp.collection
            some (record wp { collection = st }))
              ≡ some new =
            sym (rw (submit_full, no_better) refl) ∙ e in
          let (st, kept, last) = >>=-eq-some (store serialize push task wp.collection) _ stored in
          let same : record wp { collection = st } ≡ new = cc in
          subst (λ x. Fits x called started) same
            (record {
              valid = fits.valid;
              size = fits.size;
              counter = fits.counter;
              room = fits.room;
            })
    ]

pub submit-Fits :
    {S : Type 0} (serialize : LinkToken → Option (List ℕ)) (push : S → List ℕ → Option S)
    (wp new : WorkerPool S) (task : LinkToken) (called started : ℕ)
    → Fits wp called started
    → submit serialize push wp task ≡ some new
    → Fits new called started
unfolding submit
submit-Fits serialize push wp new task called started fits e =
    elim (Bool-cases (ltb wp.buffered wp.queue_capacity)) [
      | inl more ↦
          let lt = ltb→lt wp.buffered wp.queue_capacity more in
          let queued : (do
            h ← insert wp.heap task
            some (record wp { heap = h; buffered = wp.buffered + 1; waiting = wp.waiting + 1 }))
              ≡ some new =
            sym (rw (submit, more) refl) ∙ e in
          let (h, inserted, last) = >>=-eq-some (insert wp.heap task) _ queued in
          let (valid, len) = insert-len wp.heap h task fits.valid inserted in
          let same : record wp { heap = h; buffered = wp.buffered + 1; waiting = wp.waiting + 1 }
              ≡ new =
            cc in
          subst (λ x. Fits x called started) same
            (record {
              valid = valid;
              size = omega (arith, len, fits.size);
              counter = omega (arith, len, fits.counter);
              room = omega (arith, lt);
            })
      | inr full ↦
          let spilled : (get_min wp.heap >>= submit_full serialize push wp task) ≡ some new =
            sym (rw (submit, full) refl) ∙ e in
          let (worst, looked, last) =
            >>=-eq-some (get_min wp.heap) (submit_full serialize push wp task) spilled in
          submit_full-Fits serialize push wp new task called started worst fits looked last
    ]
