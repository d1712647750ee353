-- ===== src/Pool.antt =====
-- internal/utils/scheduler/workerPool.go: the queue of the worker pool. Submit and the taking of a
-- task by a worker hold the pool's lock, so each is one step. `serialize`, a parameter, is
-- LinkToken.Serialize (package encoding/gob), `none` its error; `push`, a parameter, is the Push of
-- the Stack interface, whose error the pool drops and whose panic is `none`. `none` is a panic.
pub mod Submit
pub mod Worker
pub mod Fits
pub mod Counts
pub mod FileStack
mod Tests
use wfts.Common.{ltb, if◌then◌else◌, ℕ, ◌+◌, Option, none, some, List}
use wfts.Common.Partial.{◌>>=◌}
use wfts.Heap.{LinkToken, MinMaxHeap, insert, get_min, get_max, delete_min, delete_max}

-- `buffered` is the number of entries in the channel `buf`, `waiting` the counter of `wg`.
pub record WorkerPool (S : Type 0) : Type 0 where
  pub collection : S
  pub heap : MinMaxHeap
  pub buffered : ℕ
  pub queue_capacity : ℕ
  pub waiting : ℕ

module _ {S : Type 0} (serialize : LinkToken → Option (List ℕ)) (push : S → List ℕ → Option S) where
  -- `if data, err := t.Serialize(); err == nil { wp.collection.Push(data) }`
  pub store : LinkToken → S → Option S
  store t st = elim (serialize t) [ none ↦ some st | some bytes ↦ push st bytes ]

  -- The branch of Submit for a full buffer, once GetMin has answered.
  pub submit_full : WorkerPool S → LinkToken → Option LinkToken → Option (WorkerPool S)
  submit_full wp task none = some wp
  submit_full wp task (some worst_task) =
      let replaced : Option (WorkerPool S) = do
        r ← delete_min wp.heap
        h ← insert r.0 task
        st ← store worst_task wp.collection
        some (record wp { heap = h; collection = st })
      in let stored : Option (WorkerPool S) = do
        st ← store task wp.collection
        some (record wp { collection = st })
        in if ltb worst_task.priority task.priority then replaced else stored

  pub submit : WorkerPool S → LinkToken → Option (WorkerPool S)
  submit wp task =
      let queued : Option (WorkerPool S) = do
        h ← insert wp.heap task
        some (record wp { heap = h; buffered = wp.buffered + 1; waiting = wp.waiting + 1 })
      in let full = get_min wp.heap >>= submit_full wp task in
        if ltb wp.buffered wp.queue_capacity then queued else full
