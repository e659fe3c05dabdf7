-- ===== src/Reindex.antt =====
-- crates/caw-core/src/reindex.rs: the queue of paths to ingest again. Each operation runs under the
-- queue's mutex, so an interleaving of threads is a sequence of operations on one state; a receiver
-- that waits gives the mutex up and changes nothing, and takes its next turn when it is woken. The
-- wake-ups themselves (`Condvar`) are not modelled.
pub mod Fifo
pub mod Worker
pub mod Tests
use opencaw.Prelude.{
  ℕ, zero, suc, ◌+◌, String, Bool, true, false, List, [], ◌∷◌, ◌++◌, if◌then◌else◌, StrSet, no_keys,
  add_key, remove_key,
}

pub record State : Type 0 where
  pub deque : List String
  pub pending : StrSet
  pub closed : Bool

abbrev pub new : State
new = record { deque = []; pending = no_keys; closed = false }

abbrev pub close : State → State
close state = record state { closed = true }

-- `pending.insert` answers whether the path was not there.
pub enqueue : String → State → State
enqueue path state =
    if state.closed
    then state
    else if state.pending path
    then state
    else record state { deque = state.deque ++ (path ∷ []); pending = add_key path state.pending }

-- What a receiver's turn under the mutex comes to.
pub data Turn : Type 0 where
  received : String → Turn
  drained waits : Turn

recv_from : List String → State → Turn × State
recv_from (path ∷ rest) state =
    (received path, record state { deque = rest; pending = remove_key path state.pending })
recv_from [] state = (if state.closed then drained else waits, state)

-- One round of the loop of `recv`.
pub recv : State → Turn × State
unfolding recv_from
recv state = recv_from state.deque state

-- Whether a worker has returned, or still runs or waits when its turns are over.
pub data WorkerEnd : Type 0 where
  returned still_running : WorkerEnd

-- What a worker did: the paths that it worked on, and the state that it leaves.
pub record Working : Type 0 where
  pub worked : List String
  pub ends : WorkerEnd
  pub last : State

-- `run_worker`, for a worker that gets `fuel` turns.
pub run_worker : ℕ → State → Working
unfolding recv
run_worker zero state = record { worked = []; ends = still_running; last = state }
run_worker (suc fuel) state =
    let (turn, next) = recv state in
    let rest = run_worker fuel next in
    elim turn [
      | received path ↦ record rest { worked = path ∷ rest.worked }
      | drained ↦ record { worked = []; ends = returned; last = next }
      | waits ↦ rest
    ]
