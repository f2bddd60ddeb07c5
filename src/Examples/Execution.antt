-- ===== src/Examples/Execution.antt =====
-- An execution of a plan of two operations, the second of which waits for the first
-- (pkg/plan/plan_execute.go).
use mathlib.Core.WellFounded.{Acc}
use nelm.Base.{
  ◌*◌, String, ℕ, ◌+◌, ◌≤◌, Bool, true, Option, none, some, [], ◌∷◌, Memᴰ, ◌≡◌, ◌≢◌, refl, subst,
  ◌==◌, ◌&&◌, ◌⊎◌, Result, ok, panic, Err, message, contains, length, ltb, arith, eq_iff, pos,
}
use nelm.Plan.Operation.{status_unknown, status_pending, status_completed, status_failed}
use nelm.Plan.Execute.{
  Waiting, returned, System, channel_capacity, workers, initial_system, advance, complete_op,
  fail_op, send_op, schedule, complete, fail, send, Reached, start, later, IsPredecessorMap,
}
use nelm.Plan.Execute.Invariant.{Invariant}
use nelm.Plan.Execute.Safety.{
  reached-Invariant, started-completed, started-Reaches, failed-unstarted, returned-completed,
}
use nelm.Plan.Execute.Capacity.{channel-bound, workers-bound}
use nelm.Plan.Execute.Termination.{steps, idle_turns, steps-bound}
use nelm.Plan.Execute.Nearer.{Continues}
use nelm.Plan.Execute.Liveness.{IsAcyclic, execution-returns, execution-returns_nil}
use nelm.Plan.Execute.Exec.{Calls, Timeouts, exec_op}
use nelm.Plan.Execute.Exec.Fits.{ReturnsAll, install_steps-exec}
use nelm.Plan.Graph.Paths.{here, next}
use nelm.Plan.Chain.{BuilderStep}
use nelm.Plan.Build.Resources.{is_install_none}
use nelm.Examples.Deployment.{secret_dependency, job}
use nelm.Plan.Chain.Builder.{skipping_step}
use nelm.Plan.Build.Resources.InstallSteps.{presence_op, stage_of, install_steps}
use mathlib.Core.Bool.{false≢true}

abbrev edge : String → String → Bool
edge p i = "a" == p && "b" == i

abbrev ops : Waiting
ops = ("a", []) ∷ ("b", "a" ∷ []) ∷ []

ops-IsPredecessorMap : IsPredecessorMap edge ops
ops-IsPredecessorMap = record {
  keys = (refl, (refl, tt));
  edges = ((λ p. ground (arith)), ((λ p. ground (arith)), tt));
  sources = λ p i h. ground (arith, h);
}

not_both : {a b : Bool} → (a && b) ≡ true → (a ≡ true) × (b ≡ true)
not_both h = ground (arith, h)

first-Acc : Acc (λ p i. edge p i ≡ true) "a"
first-Acc = Acc.intro "a" (λ p h. absurd (false≢true ((not_both h).1)))

edge-IsAcyclic : IsAcyclic edge
edge-IsAcyclic i =
    Acc.intro i
      (λ p h. subst (Acc (λ p i. edge p i ≡ true)) ((eq_iff "a" p).0 ((not_both h).0)) first-Acc)

-- The next state of the scheduler, or the same one while it is blocked.
abbrev after : Option System → System → System
after none s = s
after (some s') s = s'

abbrev tick : System → System
tick s = after (advance (pos 2) s) s

tick-Reached : (s : System) → Reached (pos 2) ops s → Reached (pos 2) ops (tick s)
tick-Reached s r = go (advance (pos 2) s) refl
  where
    go : (o : Option System) → advance (pos 2) s ≡ o → Reached (pos 2) ops (after o s)
    go none h = r
    go (some s') h = later r (schedule s' h)

-- The first operation is handed to a worker.
abbrev first_runs : System
first_runs = tick (tick (initial_system ops))

first_runs-Reached : Reached (pos 2) ops first_runs
first_runs-Reached = tick-Reached _ (tick-Reached _ start)

first_running : contains first_runs.running "a" ≡ true
unfolding advance initial_system
first_running = refl

abbrev failure : Err
failure = message "forbidden"

first_failed-Reached : Reached (pos 2) ops (fail_op "a" failure first_runs)
first_failed-Reached = later first_runs-Reached (fail "a" failure first_running)

-- The first operation completes, its worker sends its identifier, and the scheduler receives it and
-- submits the second one.
abbrev second_runs : System
second_runs = tick (tick (tick (tick (tick (send_op "a" (complete_op "a" first_runs))))))

first_sending : contains (complete_op "a" first_runs).sending "a" ≡ true
unfolding complete_op
first_sending = refl

first_room : ltb (length (complete_op "a" first_runs).channel) channel_capacity ≡ true
unfolding complete_op advance initial_system
first_room = refl

first_sent-Reached : Reached (pos 2) ops (send_op "a" (complete_op "a" first_runs))
first_sent-Reached =
    later (later first_runs-Reached (complete "a" first_running))
      (send "a" first_sending first_room)

second_runs-Reached : Reached (pos 2) ops second_runs
second_runs-Reached =
    tick-Reached _
      (tick-Reached _ (tick-Reached _ (tick-Reached _ (tick-Reached _ first_sent-Reached))))

second_status : second_runs.status "b" ≡ status_pending
unfolding advance initial_system complete_op send_op
second_status = refl

second_running : contains second_runs.running "b" ≡ true
unfolding advance initial_system complete_op send_op
second_running = refl

-- The second operation completes, and ExecutePlan returns nil.
abbrev all_done : System
all_done = tick (tick (tick (send_op "b" (complete_op "b" second_runs))))

second_sending : contains (complete_op "b" second_runs).sending "b" ≡ true
unfolding complete_op
second_sending = refl

second_room : ltb (length (complete_op "b" second_runs).channel) channel_capacity ≡ true
unfolding complete_op advance initial_system send_op
second_room = refl

all_done-Reached : Reached (pos 2) ops all_done
all_done-Reached = tick-Reached _ (
    tick-Reached _ (
      tick-Reached _ (
        later (later second_runs-Reached (complete "b" second_running))
          (send "b" second_sending second_room))))

all_done_returns : all_done.phase ≡ returned (ok tt)
unfolding advance initial_system complete_op send_op
all_done_returns = refl

edge_first : edge "a" "b" ≡ true
edge_first = refl

small : length ops ≤ channel_capacity
small = omega arith

second_started : second_runs.status "b" ≢ status_unknown
second_started h = absurd (cc (h, second_status))

first_status : (fail_op "a" failure first_runs).status "a" ≡ status_failed
unfolding fail_op
first_status = refl

first_uncancelled : first_runs.cancelled ≡ none
unfolding advance initial_system
first_uncancelled = refl

reached-Invariant_example : Invariant edge ops second_runs
reached-Invariant_example =
    reached-Invariant edge ops (pos 2) second_runs ops-IsPredecessorMap second_runs-Reached

started-completed_example : second_runs.status "a" ≡ status_completed
unfolding advance initial_system complete_op send_op
started-completed_example =
    started-completed edge ops (pos 2) second_runs ops-IsPredecessorMap second_runs-Reached "a" "b"
      refl second_started

started-Reaches_example : ◌≡◌ {A = String} "a" "b" ⊎ (second_runs.status "a" ≡ status_completed)
started-Reaches_example =
    started-Reaches edge ops (pos 2) second_runs ops-IsPredecessorMap second_runs-Reached "a" "b"
      (next edge_first here) second_started

failed-unstarted_example : (fail_op "a" failure first_runs).status "b" ≡ status_unknown
failed-unstarted_example =
    failed-unstarted edge ops (pos 2) (fail_op "a" failure first_runs) ops-IsPredecessorMap
      first_failed-Reached "a" "b" "b" edge_first here first_status

returned-completed_example : all_done.status "b" ≡ status_completed
returned-completed_example =
    returned-completed edge ops (pos 2) all_done ops-IsPredecessorMap all_done-Reached
      all_done_returns "b" refl

channel-bound_example : length second_runs.channel + length second_runs.sending ≤ 2
channel-bound_example =
    channel-bound edge ops (pos 2) second_runs ops-IsPredecessorMap second_runs-Reached

workers-bound_example : length second_runs.running + length second_runs.sending ≤ workers (pos 2)
workers-bound_example = workers-bound ops (pos 2) second_runs second_runs-Reached

steps-bound_example :
    steps edge ops second_runs-Reached ≤ 22 + 2 * idle_turns edge ops second_runs-Reached
steps-bound_example = steps-bound edge ops ops-IsPredecessorMap second_runs-Reached

execution-returns_example :
    (end : System) × (result : Result {0} Unit) × Continues
      (pos 2)
      (fail_op "a" failure first_runs)
      end
    × (end.phase ≡ returned result)
execution-returns_example =
    execution-returns edge ops (pos 2) ops-IsPredecessorMap small edge-IsAcyclic
      (fail_op "a" failure first_runs) first_failed-Reached

execution-returns_nil_example :
    (end : System) × Continues (pos 2) first_runs end × (end.phase ≡ returned (ok tt))
execution-returns_nil_example =
    execution-returns_nil edge ops (pos 2) ops-IsPredecessorMap small edge-IsAcyclic first_runs
      first_runs-Reached first_uncancelled

-- Calls that all succeed and change nothing.
abbrev idle_calls : Calls
idle_calls = record {
  World = ℕ;
  delete_resource = λ _ _ _ w. (w, ok tt);
  create_resource = λ _ _ _ _ w. (w, ok tt);
  apply_resource = λ _ _ _ w. (w, ok tt);
  namespaced = λ _ w. (w, ok true);
  reset_and_retry_on_unknown_gvr = λ check. check;
  add_absence_task = λ _ _ _ w. (w, ok tt);
  await_absence = λ _ _ _ _ w. (w, ok tt);
  add_presence_task = λ _ _ _ w. (w, ok tt);
  await_presence = λ _ _ _ _ w. (w, ok tt);
  add_readiness_task = λ _ _ _ w. (w, ok tt);
  new_readiness_tracker = λ _ _ _ _ w. (w, ok tt);
  await_readiness = λ _ _ _ _ w. (w, ok tt);
  history_create = λ _ w. (w, ok tt);
  history_update = λ _ w. (w, ok tt);
  history_delete = λ _ _ w. (w, ok tt);
}

idle_calls-ReturnsAll : ReturnsAll idle_calls
idle_calls-ReturnsAll = record {
  delete_resource = λ _ _ _ w same. cc;
  create_resource = λ _ _ _ _ w same. cc;
  apply_resource = λ _ _ _ w same. cc;
  namespaced = λ _ w same. cc;
  reset_and_retry = λ check h. h;
  add_absence_task = λ _ _ _ w same. cc;
  await_absence = λ _ _ _ _ w same. cc;
  add_presence_task = λ _ _ _ w same. cc;
  await_presence = λ _ _ _ _ w same. cc;
  add_readiness_task = λ _ _ _ w same. cc;
  new_readiness_tracker = λ _ _ _ _ w same. cc;
  await_readiness = λ _ _ _ _ w same. cc;
  history_create = λ _ w same. cc;
  history_update = λ _ w same. cc;
  history_delete = λ _ _ w same. cc;
}

abbrev timeouts : Timeouts
timeouts = record { readiness = 0; presence = 0; absence = 0 }

-- The first step of the example's job tracks the presence of the secret that it needs.
abbrev job_step : BuilderStep
job_step = skipping_step (presence_op secret_dependency) (stage_of job)

job_step-mem : Memᴰ job_step (install_steps job)
unfolding install_steps is_install_none
job_step-mem = Memᴰ.head refl

install_steps-exec_example : (exec_op idle_calls "apps" timeouts job_step.operation 0).1 ≢ panic
install_steps-exec_example =
    install_steps-exec idle_calls "apps" timeouts idle_calls-ReturnsAll job job_step 0 job_step-mem
