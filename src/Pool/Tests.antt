-- ===== src/Pool/Tests.antt =====
-- Submit at a full queue of one token.
use wfts.Common.{
  length, replicate, ℕ, ◌≤◌, ◌<◌, ◌≡◌, refl, ◌↔◌, Option, none, some, List, [], ◌∷◌, arith,
}
use wfts.Common.Partial.{Yields}
use wfts.Heap.{LinkToken, MinMaxHeap, get_min, get_max, delete_max, delete_at}
use wfts.Pool.Worker.{Workers, receives, takes, Run, stop, go}
use wfts.Pool.Counts.{FitsAll, Run-Fits, Run-called}
use wfts.Heap.Slice.{nil_token}
use wfts.Heap.Operations.{IsValid}
use wfts.Pool.{WorkerPool, store, submit}
use wfts.FileQueue.{Stack, no_faults}
use wfts.Pool.FileStack.{TooLong, file_push, submit-panics}
use wfts.Pool.Submit.{Stores, Queued, Spilled, submit_correct}

abbrev token : ℕ → LinkToken
token p = record nil_token { priority = p }

-- A serialization for the tests: the priority.
abbrev to_bytes : LinkToken → Option (List ℕ)
to_bytes t = some (t.priority ∷ [])

abbrev push_first : List (List ℕ) → List ℕ → Option (List (List ℕ))
push_first st bytes = some (bytes ∷ st)

abbrev full_pool : WorkerPool (List (List ℕ))
full_pool = record {
  collection = [];
  heap = record { len = 1; items = token 5 ∷ [] };
  buffered = 1;
  queue_capacity = 1;
  waiting = 1;
}

full_pool-IsValid : IsValid full_pool.heap
full_pool-IsValid = record {
  counted = refl;
  heap = record {
    parents = λ c p q. absurd (omega (arith, p, q));
    grandparents = λ c p q. absurd (omega (arith, p, q));
  };
}

stores_least : store to_bytes push_first (token 3) [] ≡ some ((3 ∷ []) ∷ [])
unfolding store
stores_least = refl

submit_correct_example :
    (full_pool.buffered < full_pool.queue_capacity
      → Yields
          (Queued to_bytes push_first full_pool (token 7))
          (submit to_bytes push_first full_pool (token 7)))
    × (full_pool.queue_capacity ≤ full_pool.buffered
        → 0 < length full_pool.heap.items
        → Stores to_bytes push_first full_pool.collection
        → Yields
            (Spilled to_bytes push_first full_pool (token 7))
            (submit to_bytes push_first full_pool (token 7)))
    × (full_pool.queue_capacity ≤ full_pool.buffered
        → length full_pool.heap.items ≡ 0
        → submit to_bytes push_first full_pool (token 7) ≡ some full_pool)
submit_correct_example = submit_correct to_bytes push_first full_pool (token 7) full_pool-IsValid

abbrev idle : Workers (List (List ℕ))
idle = record {
  pool = full_pool;
  called = 0;
  retrying = 0;
  starting = [];
  running = [];
  returned = [];
}

abbrev awake : Workers (List (List ℕ))
awake = record idle { pool = record full_pool { buffered = 0 }; called = 1 }

-- The worker took the task, and Done is still to come.
abbrev taken : Workers (List (List ℕ))
taken = record awake {
  pool = record awake.pool { heap = record { len = 0; items = [] } };
  called = 0;
  starting = token 5 ∷ [];
}

-- A stack that is always empty.
abbrev no_pop : List (List ℕ) → Option (Option LinkToken × List (List ℕ))
no_pop st = none

one_receives : Run to_bytes push_first no_pop idle awake
one_receives = go (receives refl) stop

deleted : delete_max full_pool.heap ≡ some (record { len = 0; items = [] }, some (token 5))
unfolding delete_max delete_at
deleted = refl

looked : get_max full_pool.heap ≡ some (some (token 5))
unfolding get_max
looked = refl

one_takes : Run to_bytes push_first no_pop idle taken
one_takes =
    go (receives refl)
      (go (takes (record { len = 0; items = [] }, some (token 5)) refl looked deleted) stop)

idle-Fits : FitsAll to_bytes push_first no_pop idle
idle-Fits = record {
  counts = record { valid = full_pool-IsValid; size = refl; counter = refl; room = omega arith };
  settled = refl;
}

Run-Fits_example : FitsAll to_bytes push_first no_pop taken
Run-Fits_example = Run-Fits to_bytes push_first no_pop one_takes idle-Fits

Run-called_example :
    (t : LinkToken) × (get_max awake.pool.heap ≡ some (some t))
    × ((left : MinMaxHeap × Option LinkToken) × (delete_max awake.pool.heap ≡ some left))
Run-called_example = Run-called to_bytes push_first no_pop one_receives idle-Fits (omega arith)

abbrev file_pool : WorkerPool Stack
file_pool = record {
  collection = record { rw_file = []; m_offset = 10 };
  heap = full_pool.heap;
  buffered = 1;
  queue_capacity = 1;
  waiting = 1;
}

-- A serialization for the tests: too long for the header.
abbrev to_long : LinkToken → Option (List ℕ)
to_long t = some (replicate 65534 0)

least_looked : get_min full_pool.heap ≡ some (some (token 5))
unfolding get_min
least_looked = refl

submit-panics_example :
    (submit to_long (file_push no_faults) file_pool (token 7) ≡ none)
    ↔ TooLong no_faults file_pool.collection (to_long (token 5))
submit-panics_example =
    submit-panics to_long no_faults file_pool (token 7) (token 5) full_pool-IsValid (omega arith)
      least_looked
