-- ===== src/Reindex/Tests.antt =====
-- Runs of the reindex queue.
use opencaw.Prelude.{◌≡◌, refl, List, [], ◌∷◌, true, arith}
use opencaw.Reindex.{State, drained, waits, recv, run_worker, enqueue, close, new}
use opencaw.Reindex.Fifo.{
  Op, enqueue_op, recv_op, close_op, step, after_ops, IsQueue, after_ops-IsQueue, after_ops_drained,
}
use opencaw.Reindex.Worker.{IsDone, run_worker_closed}

-- The latest first: "a" waits when it is offered again, and once more when it has been handed out.
abbrev history : List Op
history =
    recv_op
    ∷ recv_op
    ∷ recv_op
    ∷ enqueue_op "c"
    ∷ close_op
    ∷ enqueue_op "a"
    ∷ recv_op
    ∷ enqueue_op "a"
    ∷ enqueue_op "b"
    ∷ enqueue_op "a"
    ∷ []

after_history : (after_ops history).handed ≡ "a" ∷ "b" ∷ "a" ∷ []
unfolding after_ops step enqueue recv
after_history = refl

history_drained : (recv (after_ops history).state).0 ≡ drained
unfolding after_ops step enqueue recv
history_drained = refl

empty_waits : (recv new).0 ≡ waits
unfolding recv
empty_waits = refl

after_ops-IsQueue_example : IsQueue (after_ops history)
after_ops-IsQueue_example = after_ops-IsQueue history

after_ops_drained_example :
    ((after_ops history).state.closed ≡ true)
    × ((after_ops history).handed ≡ (after_ops history).taken)
after_ops_drained_example = after_ops_drained history history_drained

abbrev closed_queue : State
closed_queue = close (enqueue "b" (enqueue "a" new))

closed_queue-closed : closed_queue.closed ≡ true
unfolding enqueue
closed_queue-closed = refl

run_worker_closed_example : IsDone closed_queue.deque (run_worker 3 closed_queue)
unfolding enqueue
run_worker_closed_example = run_worker_closed 3 closed_queue closed_queue-closed (omega arith)
