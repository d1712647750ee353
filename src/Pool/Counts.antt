-- ===== src/Pool/Counts.antt =====
-- The counts of the pool along every run.
use wfts.Common.{
  Option-cases, length, length-append, ℕ, ◌<◌, ◌≡◌, ap, ◌∙◌, inl, inr, Option, some, List, ◌∷◌,
  arith,
}
use wfts.Common.Partial.{Yields-inv}
use wfts.Heap.{LinkToken, MinMaxHeap, get_max, delete_max}
use wfts.Heap.Operations.{IsValid, get_max-IsGreatest}
use wfts.Heap.Deletion.{delete_max_correct}
use wfts.Pool.{WorkerPool}
use wfts.Pool.Worker.{
  Workers, Step, submits, pops, drops, submits_returned, receives, takes, finds_none, retries,
  starts, ends, Run, stop, go,
}
use wfts.Pool.Fits.{Fits, delete_max-len, submit-Fits}

-- GetMax and DeleteMax on a heap that is not empty.
get_max-some :
    (h : MinMaxHeap)
    → IsValid h
    → 0 < h.len
    → (t : LinkToken) × (get_max h ≡ some (some t))
      × ((left : MinMaxHeap × Option LinkToken) × (delete_max h ≡ some left))
get_max-some h valid some_items =
    let (seen, looked, what) = Yields-inv (get_max-IsGreatest h valid) in
    let (t, is_t) : (t : LinkToken) × (seen ≡ some t) = elim (Option-cases seen) [
      | inr found ↦ found
      | inl nothing ↦
          let empty : length h.items ≡ 0 = rw nothing at what in
          absurd (omega (arith, empty, valid.counted))
    ] in
    let (left, removed) : (left : MinMaxHeap × Option LinkToken) × (delete_max h ≡ some left) =
      elim (delete_max_correct h valid) [
        | inl (empty, _) ↦ absurd (omega arith)
        | inr (_, yielded) ↦ let (left, e, gone) = Yields-inv yielded in (left, e)
      ] in
    (t, looked ∙ ap some is_t, (left, removed))

module _ {S : Type 0} (serialize : LinkToken → Option (List ℕ)) (push : S → List ℕ → Option S)
    (pop : S → Option (Option LinkToken × S)) where
  -- The counts of the pool, where no worker missed a task.
  pub record FitsAll (ws : Workers S) : Type 0 where
    pub counts : Fits ws.pool ws.called (length ws.starting)
    pub settled : ws.retrying ≡ 0

  -- A change of the stack only.
  restacked :
      {wp : WorkerPool S} {called started : ℕ} (rest : S)
      → Fits wp called started
      → Fits (record wp { collection = rest }) called started
  restacked rest fits = record {
    valid = fits.valid;
    size = fits.size;
    counter = fits.counter;
    room = fits.room;
  }

  Step-Fits : {ws new : Workers S} → Step serialize push pop ws new → FitsAll ws → FitsAll new
  Step-Fits {ws} (submits {new = wp} task e) all = record {
    counts = submit-Fits serialize push ws.pool wp task ws.called (length ws.starting) all.counts e;
    settled = all.settled;
  }
  Step-Fits (pops {rest = rest} popped) all = record {
    counts = restacked rest all.counts;
    settled = all.settled;
  }
  Step-Fits (drops {rest = rest} popped) all = record {
    counts = restacked rest all.counts;
    settled = all.settled;
  }
  Step-Fits {ws} (submits_returned {new = wp} task before after waits e) all = record {
    counts = submit-Fits serialize push ws.pool wp task ws.called (length ws.starting) all.counts e;
    settled = all.settled;
  }
  Step-Fits (receives e) all =
      let fits = all.counts in
      record {
        counts = record {
          valid = fits.valid;
          size = omega (arith, e, fits.size);
          counter = fits.counter;
          room = omega (arith, e, fits.room);
        };
        settled = all.settled;
      }
  Step-Fits {ws} (takes {task = t} left called looked removed) all =
      let fits = all.counts in
      let some_items : 0 < ws.pool.heap.len = omega (arith, called, fits.size) in
      let (valid, len) = delete_max-len ws.pool.heap t left fits.valid removed some_items in
      record {
        counts = record {
          valid = valid;
          size = omega (arith, called, len, fits.size);
          counter = omega (arith, len, fits.counter);
          room = fits.room;
        };
        settled = all.settled;
      }
  Step-Fits {ws} (finds_none called looked) all =
      let fits = all.counts in
      let some_items : 0 < ws.pool.heap.len = omega (arith, called, fits.size) in
      let (t, seen, rest) = get_max-some ws.pool.heap fits.valid some_items in absurd cc
  Step-Fits (retries missed) all = absurd (omega (arith, missed, all.settled))
  Step-Fits {ws} (starts task before after waits) all =
      let fits = all.counts in
      let whole = length-append before (task ∷ after) in
      let now = length-append before after in
      let one = ap length waits in
      record {
        counts = record {
          valid = fits.valid;
          size = fits.size;
          counter = omega (arith, fits.counter, whole, now, one);
          room = fits.room;
        };
        settled = all.settled;
      }
  Step-Fits (ends {rest = rest} task before after canceled works kept) all = record {
    counts = restacked rest all.counts;
    settled = all.settled;
  }

  -- Where the counts fit at the start, then in every interleaving of the steps, between sections under the lock, the
  -- heap stays valid and has as many tasks
  -- as there are entries in `buf` and workers that received one and do not hold the lock yet, the buffer stays within
  -- its capacity, and no worker misses a task. The counter of `wg` is the number of the tasks in the heap and of
  -- those taken and not counted down yet: those at work do not count, so Wait does not wait for them.
  pub Run-Fits : {ws last : Workers S} → Run serialize push pop ws last → FitsAll ws → FitsAll last
  Run-Fits stop fits = fits
  Run-Fits (go step rest) fits = Run-Fits rest (Step-Fits step fits)

  -- Where the counts fit at the start, then in every interleaving of the steps, a worker that received from `buf` can go on with a task: GetMax gives one and
  -- DeleteMax takes one out.
  pub Run-called :
      {ws last : Workers S}
      → Run serialize push pop ws last
      → FitsAll ws
      → 0 < last.called
      → (t : LinkToken) × (get_max last.pool.heap ≡ some (some t))
        × ((left : MinMaxHeap × Option LinkToken) × (delete_max last.pool.heap ≡ some left))
  Run-called {ws} {last} run fits some_called =
      let kept = (Run-Fits run fits).counts in
      get_max-some last.pool.heap kept.valid (omega (arith, kept.size, some_called))
