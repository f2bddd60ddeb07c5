-- ===== src/Plan/Execute.antt =====
-- pkg/plan/plan_execute.go, ExecutePlan and execOperation: the scheduler and the workers of its
-- pool as steps on one state. A step of the scheduler is one turn of a loop, one receive or one
-- submission; a step of a worker is what it does up to the next point at which the scheduler or
-- another worker can see it. A worker's operation ends either way: what it does to the cluster is
-- `Execute.Exec`. The order of a list stands for the order in which a range over a map meets it.
pub mod Exec
pub mod Membership
pub mod Executable
pub mod Invariant
pub mod Preserved
pub mod Workers
pub mod Scheduled
pub mod Submitted
pub mod Safety
pub mod Measure
pub mod Capacity
pub mod Termination
pub mod Outcome
pub mod Nearer
pub mod Liveness
use nelm.Base.{
  String, ℕ, ◌+◌, Bool, true, false, Option, none, some, List, [], ◌∷◌, ◌++◌, ◌≡◌, ◌==◌, ◌||◌, not,
  Result, ok, err, Err, wrap, if◌then◌else◌, filter_by, contains, All, length, ltb, ℤ, pos, negsuc,
}
use nelm.Plan.Operation.{
  OperationStatus, status_unknown, status_pending, status_completed, status_failed,
}

-- The edge maps of PredecessorMap: an operation with the operations that it still waits for.
abbrev pub Waiting : Type 0
Waiting = List (String × List String)

-- Where ExecutePlan is: at the head of its loop (with whether i > 0), in the loop that empties the
-- channel (with gotCompletedOpID), in the loop over the executable operations (those left), at
-- workerPool.Wait, or returned.
pub data Phase : Type 0 where
  looping : (later : Bool) → Phase
  draining : (got : Bool) → Phase
  submitting : (batch : List String) → Phase
  finishing : Phase
  returned : Result {0} Unit → Phase

pub record System : Type 0 where
  pub phase : Phase
  -- opsMap
  pub waiting : Waiting
  -- The operations that a worker executes, and those whose worker is about to send the identifier.
  pub running : List String
  pub sending : List String
  -- completedOpsIDsCh
  pub channel : List String
  pub status : String → OperationStatus
  -- The cause of ctx's cancellation, and the first error of the pool.
  pub cancelled : Option Err
  pub failure : Option Err

-- make(chan string, 100000)
abbrev pub channel_capacity : ℕ
channel_capacity = 100000

-- lo.Max([]int{opts.NetworkParallelism, 1})
unfoldable pub workers : ℤ → ℕ
workers (pos n) = if ltb 1 n then n else 1
workers (negsuc _) = 1

unfoldable pub remove : String → List String → List String
remove i = filter_by (λ j. not (j == i))

-- delete(edgeMap, completedOpID), for each edge map.
unfoldable pub forget : String → Waiting → Waiting
unfolding remove
forget i [] = []
forget i ((j, before) ∷ ops) = (j, remove i before) ∷ forget i ops

-- delete(opsMap, opID)
unfoldable pub unschedule : String → Waiting → Waiting
unschedule i = filter_by (λ e. not (e.0 == i))

unfoldable pub find_executable_ops_ids : Waiting → List String
find_executable_ops_ids [] = []
find_executable_ops_ids ((i, []) ∷ ops) = i ∷ find_executable_ops_ids ops
find_executable_ops_ids ((i, _ ∷ _) ∷ ops) = find_executable_ops_ids ops

unfoldable pub set_status :
    String → OperationStatus → (String → OperationStatus) → String → OperationStatus
set_status i new status j = if i == j then new else status j

unfoldable pub initial_system : Waiting → System
initial_system ops = record {
  phase = looping false;
  waiting = ops;
  running = [];
  sending = [];
  channel = [];
  status = λ _. status_unknown;
  cancelled = none;
  failure = none;
}

-- The head of the loop: its condition, and the test of ctx.Err when i > 0.
unfoldable pub enter_loop : Bool → Waiting → Option Err → Phase
unfolding find_executable_ops_ids
enter_loop later [] cancelled = finishing
enter_loop false (e ∷ ops) cancelled = submitting (find_executable_ops_ids (e ∷ ops))
enter_loop true (e ∷ ops) (some _) = finishing
enter_loop true (e ∷ ops) none = draining false

-- One turn of the loop that empties the channel, or what comes after it: the operations that are
-- executable now, or a pause.
unfoldable pub drain : Bool → List String → System → System
unfolding forget find_executable_ops_ids
drain got (i ∷ channel) s = record s {
  phase = draining true;
  waiting = forget i s.waiting;
  channel = channel;
}
drain true [] s = record s { phase = submitting (find_executable_ops_ids s.waiting) }
drain false [] s = record s { phase = looping true }

-- workerPool.Go hands the operation to a worker, which reports it as pending.
unfoldable pub submit : String → List String → System → System
unfolding unschedule set_status
submit i batch s = record s {
  phase = submitting batch;
  waiting = unschedule i s.waiting;
  running = i ∷ s.running;
  status = set_status i status_pending s.status;
}

-- What ExecutePlan returns after workerPool.Wait.
unfoldable pub outcome : Option Err → Option Err → Result {0} Unit
outcome (some e) cancelled = err (wrap "wait for operations completion" e)
outcome none (some cause) = err (wrap "execution canceled" cause)
outcome none none = ok tt

-- Wait returns when no worker is left.
unfoldable pub finish : List String → List String → System → Option System
unfolding outcome
finish [] [] s = some (record s { phase = returned (outcome s.failure s.cancelled) })
finish _ _ s = none

-- The next step of the scheduler, if nothing blocks it: workerPool.Go waits for a free worker, and
-- Wait for all.
unfoldable pub advance_in : Phase → ℤ → System → Option System
unfolding workers enter_loop drain submit finish
advance_in (looping later) n s = some (record s { phase = enter_loop later s.waiting s.cancelled })
advance_in (draining got) n s = some (drain got s.channel s)
advance_in (submitting []) n s = some (record s { phase = looping true })
advance_in (submitting (i ∷ batch)) n s =
    if ltb (length s.running + length s.sending) (workers n) then some (submit i batch s) else none
advance_in finishing n s = finish s.running s.sending s
advance_in (returned _) n s = none

unfoldable pub advance : ℤ → System → Option System
unfolding advance_in
advance n s = advance_in s.phase n s

-- The first of two errors.
unfoldable pub first_of : Option Err → Err → Option Err
first_of none e = some e
first_of (some first) e = some first

-- execOp returns nil.
unfoldable pub complete_op : String → System → System
unfolding remove set_status
complete_op i s = record s {
  running = remove i s.running;
  sending = i ∷ s.sending;
  status = set_status i status_completed s.status;
}

-- execOp returns an error: the deferred function cancels ctx with it, and the pool keeps it.
unfoldable pub fail_op : String → Err → System → System
unfolding remove set_status first_of
fail_op i e s = record s {
  running = remove i s.running;
  status = set_status i status_failed s.status;
  cancelled = first_of s.cancelled (wrap "context canceled" e);
  failure = first_of s.failure (wrap "execute operation" e);
}

-- completedOpsIDsCh <- opID
unfoldable pub send_op : String → System → System
unfolding remove
send_op i s = record s { sending = remove i s.sending; channel = s.channel ++ i ∷ [] }

-- parentCtx is cancelled.
unfoldable pub cancel_by : Err → System → System
cancel_by cause s = record s { cancelled = some cause }

-- A step of ExecutePlan with so much parallelism asked for. A send blocks on a full channel.
pub data Step (n : ℤ) (s : System) : System → Type 0 where
  schedule : (s' : System) → advance n s ≡ some s' → Step n s s'
  complete : (i : String) → contains s.running i ≡ true → Step n s (complete_op i s)
  fail : (i : String) (e : Err) → contains s.running i ≡ true → Step n s (fail_op i e s)
  send :
      (i : String)
      → contains s.sending i ≡ true
      → ltb (length s.channel) channel_capacity ≡ true
      → Step n s (send_op i s)
  cancel : (cause : Err) → s.cancelled ≡ none → Step n s (cancel_by cause s)

-- The states that an execution meets.
pub data Reached (n : ℤ) (ops : Waiting) : System → Type 0 where
  start : Reached n ops (initial_system ops)
  later : {s s' : System} → Reached n ops s → Step n s s' → Reached n ops s'

-- Whether the operation is a key of the map.
abbrev pub waits : Waiting → String → Bool
waits [] i = false
waits ((j, _) ∷ ops) i = j == i || waits ops i

-- The keys of a map are distinct.
abbrev pub DistinctKeys : Waiting → Type 0
DistinctKeys [] = Unit
DistinctKeys ((i, _) ∷ ops) = (waits ops i ≡ false) × DistinctKeys ops

-- What PredecessorMap documents: for each vertex, the vertices with an edge to it.
pub record IsPredecessorMap (edge : String → String → Bool) (ops : Waiting) : Type 0 where
  pub keys : DistinctKeys ops
  pub edges : All (λ (e : String × List String). (p : String) → contains e.1 p ≡ edge p e.0) ops
  pub sources : (p i : String) → edge p i ≡ true → waits ops p ≡ true
