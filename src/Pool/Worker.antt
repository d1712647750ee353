-- ===== src/Pool/Worker.antt =====
-- The workers of workerPool.go as a step relation, in which a section under the lock is one step: Submit by the
-- crawler; the timer that pops a task from the stack, and its Submit; a worker that receives from `buf`, takes a task
-- under the lock, lowers the counter of `wg` without it, and ends the task. A run is an interleaving of them. `buf`
-- has room for one entry or more. `quit` and the closing of `buf` are left out, and nothing but these steps changes
-- the tasks of the heap.
use wfts.Common.{
  ltb, if◌then◌else◌, ℕ, suc, ◌+◌, ◌-◌, ◌≡◌, Bool, Option, none, some, List, ◌∷◌, ◌++◌,
}
use wfts.Heap.{LinkToken, MinMaxHeap, get_max, delete_max}
use wfts.Pool.{WorkerPool, store, submit}

-- `called` are the workers that received from `buf` and do not hold the lock yet, `retrying` those that found no
-- task; `starting` the tasks taken before Done, `running` those after it; `returned` those the timer took back.
pub record Workers (S : Type 0) : Type 0 where
  pub pool : WorkerPool S
  pub called : ℕ
  pub retrying : ℕ
  pub starting : List LinkToken
  pub running : List LinkToken
  pub returned : List LinkToken

-- A worker that found no task sends to `buf` again, if there is room.
abbrev pub refill : {S : Type 0} → WorkerPool S → WorkerPool S
refill wp =
    if ltb wp.buffered wp.queue_capacity then record wp { buffered = wp.buffered + 1 } else wp

module _ {S : Type 0} (serialize : LinkToken → Option (List ℕ)) (push : S → List ℕ → Option S)
    (pop : S → Option (Option LinkToken × S)) where
  -- What the end of a task leaves of the stack: a canceled one is pushed.
  abbrev pub ended : Bool → LinkToken → S → Option S
  ended canceled task st = if canceled then store serialize push task st else some st

  -- `pop` is the Pop of the stack with DeserializeToken, whose error loses the data; where Pop fails, nothing
  -- changes. `starts` is the Done of heapAct.
  pub data Step : Workers S → Workers S → Type 0 where
    submits :
        {ws : Workers S} {new : WorkerPool S} (task : LinkToken)
        → submit serialize push ws.pool task ≡ some new
        → Step ws (record ws { pool = new })
    pops :
        {ws : Workers S} {task : LinkToken} {rest : S}
        → pop ws.pool.collection ≡ some (some task, rest)
        → Step ws (record ws {
          pool = record ws.pool { collection = rest };
          returned = task ∷ ws.returned;
        })
    drops :
        {ws : Workers S} {rest : S}
        → pop ws.pool.collection ≡ some (none, rest)
        → Step ws (record ws { pool = record ws.pool { collection = rest } })
    submits_returned :
        {ws : Workers S} {new : WorkerPool S} (task : LinkToken) (before after : List LinkToken)
        → ws.returned ≡ before ++ (task ∷ after)
        → submit serialize push ws.pool task ≡ some new
        → Step ws (record ws { pool = new; returned = before ++ after })
    receives :
        {ws : Workers S} {n : ℕ}
        → ws.pool.buffered ≡ suc n
        → Step ws (record ws { pool = record ws.pool { buffered = n }; called = suc ws.called })
    takes :
        {ws : Workers S} {n : ℕ} {task : LinkToken} (left : MinMaxHeap × Option LinkToken)
        → ws.called ≡ suc n
        → get_max ws.pool.heap ≡ some (some task)
        → delete_max ws.pool.heap ≡ some left
        → Step ws (record ws {
          pool = record ws.pool { heap = left.0 };
          called = n;
          starting = task ∷ ws.starting;
        })
    finds_none :
        {ws : Workers S} {n : ℕ}
        → ws.called ≡ suc n
        → get_max ws.pool.heap ≡ some none
        → Step ws (record ws { called = n; retrying = suc ws.retrying })
    retries :
        {ws : Workers S} {n : ℕ}
        → ws.retrying ≡ suc n
        → Step ws (record ws { pool = refill ws.pool; retrying = n })
    starts :
        {ws : Workers S} (task : LinkToken) (before after : List LinkToken)
        → ws.starting ≡ before ++ (task ∷ after)
        → Step ws (record ws {
          pool = record ws.pool { waiting = ws.pool.waiting - 1 };
          starting = before ++ after;
          running = task ∷ ws.running;
        })
    ends :
        {ws : Workers S} {rest : S} (task : LinkToken) (before after : List LinkToken)
        (canceled : Bool)
        → ws.running ≡ before ++ (task ∷ after)
        → ended canceled task ws.pool.collection ≡ some rest
        → Step ws
            (record ws { pool = record ws.pool { collection = rest }; running = before ++ after })

  pub data Run : Workers S → Workers S → Type 0 where
    stop : {ws : Workers S} → Run ws ws
    go : {ws mid last : Workers S} → Step ws mid → Run mid last → Run ws last
