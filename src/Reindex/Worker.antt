-- ===== src/Reindex/Worker.antt =====
-- A worker on a closed queue: it works on all that waits, in order, and stops.
use opencaw.Prelude.{
  ℕ, zero, suc, ◌≡◌, refl, ap, ◌<◌, String, true, List, [], ◌∷◌, length, arith, StrSet, remove_key,
}
use opencaw.Reindex.{State, returned, Working, recv, recv_from, run_worker}

-- The worker has returned, after these paths, and nothing waits.
abbrev pub IsDone : List String → Working → Type 0
IsDone ps w = (w.ends ≡ returned) × (w.worked ≡ ps) × (w.last.deque ≡ [])

worker_loop :
    (fuel : ℕ) (ps : List String) (pending : StrSet)
    → length ps < fuel
    → IsDone ps (run_worker fuel (record { deque = ps; pending = pending; closed = true }))
unfolding run_worker recv recv_from
worker_loop zero ps pending enough = absurd (omega arith)
worker_loop (suc fuel) [] pending enough = (refl, refl, refl)
worker_loop (suc fuel) (path ∷ rest) pending enough =
    let (ends, worked, empty) = worker_loop fuel rest (remove_key path pending) (omega arith) in
    (ends, ap (◌∷◌ path) worked, empty)

-- Once the queue is closed, a worker that runs alone works on every path that waits, in the order
-- of the queue, and returns with the queue empty: one turn more than there are paths is enough. A
-- worker that waits when its turns are over has not returned.
pub run_worker_closed :
    (fuel : ℕ) (state : State)
    → state.closed ≡ true
    → length state.deque < fuel
    → IsDone state.deque (run_worker fuel state)
run_worker_closed fuel state c enough = rw c (worker_loop fuel state.deque state.pending enough)
