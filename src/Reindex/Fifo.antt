-- ===== src/Reindex/Fifo.antt =====
-- The reindex queue over every interleaving of its operations.
use mathlib.Core.List.{append_assoc, append-nil}
use opencaw.Prelude.{
  ◌≡◌, refl, sym, ap, ◌∙◌, inl, inr, String, Bool, true, false, List, [], ◌∷◌, ◌++◌, str_eq, eq_iff,
  arith, Bool-cases, add_key, remove_key, if◌then◌else◌,
}
use opencaw.Prelude.Keys.{has_key, has_key-snoc, IsDistinct, IsDistinct-snoc}
use opencaw.Reindex.{State, new, close, enqueue, Turn, received, drained, waits, recv, recv_from}

-- What threads do to the queue.
pub data Op : Type 0 where
  enqueue_op : String → Op
  recv_op close_op : Op

-- The queue, with the paths that it took and those that it handed out.
pub record Trace : Type 0 where
  pub state : State
  pub taken : List String
  pub handed : List String

abbrev pub start : Trace
start = record { state = new; taken = []; handed = [] }

-- The path of an `enqueue`, if the queue takes it: it is open and the path is not pending.
abbrev pub taken_by : String → State → List String
taken_by path state = if state.closed then [] else if state.pending path then [] else path ∷ []

abbrev pub handed_by : Turn → List String
handed_by (received path) = path ∷ []
handed_by drained = []
handed_by waits = []

unfoldable pub step : Op → Trace → Trace
unfolding enqueue recv
step (enqueue_op path) t = record t {
  state = enqueue path t.state;
  taken = t.taken ++ taken_by path t.state;
}
step recv_op t =
    let (turn, next) = recv t.state in
    record t { state = next; handed = t.handed ++ handed_by turn }
step close_op t = record t { state = close t.state }

-- The operations in their order, the latest first.
unfoldable pub after_ops : List Op → Trace
after_ops [] = start
after_ops (op ∷ older) = step op (after_ops older)

-- What holds of every state of the queue.
pub record IsQueue (t : Trace) : Type 0 where
  -- the set is the paths of the deque
  pub same : (path : String) → t.state.pending path ≡ has_key path t.state.deque
  pub distinct : IsDistinct t.state.deque
  -- what was taken was handed out, or still waits, in the same order
  pub fifo : t.taken ≡ t.handed ++ t.state.deque

enqueued_same :
    (path : String) (t : Trace) (j : String)
    → t.state.pending j ≡ has_key j t.state.deque
    → add_key path t.state.pending j ≡ has_key j (t.state.deque ++ (path ∷ []))
enqueued_same path t j h = ground (arith, has_key-snoc j path t.state.deque)

enqueue-IsQueue : (path : String) (t : Trace) → IsQueue t → IsQueue (step (enqueue_op path) t)
unfolding step enqueue
enqueue-IsQueue path t q = elim (Bool-cases t.state.closed) [
  | inl closed ↦
      rw closed
        (record { same = q.same; distinct = q.distinct; fifo = append-nil t.taken ∙ q.fifo })
  | inr open_queue ↦ elim (Bool-cases (t.state.pending path)) [
    | inl there ↦
        rw (open_queue, there)
          (record { same = q.same; distinct = q.distinct; fifo = append-nil t.taken ∙ q.fifo })
    | inr absent ↦
        rw (open_queue, absent)
          (record {
            same = λ j. enqueued_same path t j (q.same j);
            distinct = IsDistinct-snoc t.state.deque path (sym (q.same path) ∙ absent) q.distinct;
            fifo =
                ap (λ ps. ps ++ (path ∷ [])) q.fifo
                ∙ append_assoc t.handed t.state.deque (path ∷ []);
          })
  ]
]

remove_first :
    (path j : String) (rest : List String)
    → has_key path rest ≡ false
    → remove_key path (λ i. has_key i (path ∷ rest)) j ≡ has_key j rest
remove_first path j rest h = ground (arith, eq_iff path j)

no_turn-IsQueue :
    (t : Trace) (turn : Turn)
    → handed_by turn ≡ []
    → IsQueue t
    → IsQueue (record t { handed = t.handed ++ handed_by turn })
no_turn-IsQueue t turn e q =
    rw (e, append-nil t.handed) (record { same = q.same; distinct = q.distinct; fifo = q.fifo })

no_path : (closed : Bool) → handed_by (if closed then drained else waits) ≡ []
no_path true = refl
no_path false = refl

recv_from-IsQueue :
    (ps : List String) (t : Trace)
    → t.state.deque ≡ ps
    → IsQueue t
    → IsQueue (record t {
      state = (recv_from ps t.state).1;
      handed = t.handed ++ handed_by (recv_from ps t.state).0;
    })
unfolding recv_from IsDistinct
recv_from-IsQueue [] t e q =
    no_turn-IsQueue t (if t.state.closed then drained else waits) (no_path t.state.closed) q
recv_from-IsQueue (path ∷ rest) t e q =
    let d : IsDistinct (path ∷ rest) = rw e at q.distinct in
    record {
      same = λ j.
          ap (λ b. if str_eq path j then false else b) (q.same j ∙ ap (has_key j) e)
          ∙ remove_first path j rest d.0;
      distinct = d.1;
      fifo = q.fifo ∙ ap (λ ps. t.handed ++ ps) e ∙ sym (append_assoc t.handed (path ∷ []) rest);
    }

recv-IsQueue : (t : Trace) → IsQueue t → IsQueue (step recv_op t)
unfolding step recv
recv-IsQueue t q = recv_from-IsQueue t.state.deque t refl q

close-IsQueue : (t : Trace) → IsQueue t → IsQueue (step close_op t)
unfolding step
close-IsQueue t q = record { same = q.same; distinct = q.distinct; fifo = q.fifo }

-- In every interleaving of its operations, the set of pending paths is the paths of the deque, no
-- path waits twice, and the paths that the queue took are those that it handed out, in the same
-- order, followed by those that wait: none is lost, handed out twice or overtaken.
pub after_ops-IsQueue : (ops : List Op) → IsQueue (after_ops ops)
unfolding after_ops IsDistinct
after_ops-IsQueue [] = record { same = λ path. refl; distinct = _; fifo = refl }
after_ops-IsQueue (enqueue_op path ∷ older) =
    enqueue-IsQueue path (after_ops older) (after_ops-IsQueue older)
after_ops-IsQueue (recv_op ∷ older) = recv-IsQueue (after_ops older) (after_ops-IsQueue older)
after_ops-IsQueue (close_op ∷ older) = close-IsQueue (after_ops older) (after_ops-IsQueue older)

recv_from-drained :
    (ps : List String) (state : State)
    → (recv_from ps state).0 ≡ drained
    → (ps ≡ []) × (state.closed ≡ true)
unfolding recv_from
recv_from-drained [] state h = elim (Bool-cases state.closed) [
  | inl closed ↦ (refl, closed)
  | inr open_queue ↦ absurd (ground (arith, rw open_queue at h))
]
recv_from-drained (path ∷ rest) state h = absurd (ground arith)

-- When a receiver is told that the queue is drained, it is closed, and every path that the queue
-- ever took has been handed out, in the order in which they came.
pub after_ops_drained :
    (ops : List Op)
    → (recv (after_ops ops).state).0 ≡ drained
    → ((after_ops ops).state.closed ≡ true) × ((after_ops ops).handed ≡ (after_ops ops).taken)
unfolding recv
after_ops_drained ops h =
    let t = after_ops ops in
    let (empty, closed) = recv_from-drained t.state.deque t.state h in
    (
      closed,
      sym ((after_ops-IsQueue ops).fifo ∙ ap (λ ps. t.handed ++ ps) empty ∙ append-nil t.handed),
    )
