-- ===== src/Plan/Execute/Measure.antt =====
-- What is left to do in an execution (pkg/plan/plan_execute.go), as a number that every step but
-- those of a turn of the scheduler's loop that receives nothing pays for.
use nelm.Base.{
  String, ℕ, ◌+◌, ◌*◌, ◌≤◌, Bool, true, false, Option, none, some, List, [], ◌∷◌, ◌≡◌, refl, subst,
  Err, wrap, contains, length, arith, some-injective,
}
use nelm.Plan.Execute.{
  Waiting, Phase, looping, draining, submitting, finishing, returned, System, initial_system,
  enter_loop, drain, submit, outcome, finish, first_of, complete_op, fail_op, send_op, cancel_by,
  waits,
}
use nelm.Plan.Execute.Membership.{length-append, remove-length, unschedule-length}
use nelm.Plan.Execute.Executable.{forget-length}

alive : Option Err → ℕ
alive none = 2
alive (some _) = 0

weight : Option Err → Phase → ℕ
weight cancelled (looping false) = 5
weight none (looping true) = 3
weight (some _) (looping true) = 2
weight cancelled (draining false) = 3
weight cancelled (draining true) = 5
weight cancelled (submitting _) = 4
weight cancelled finishing = 1
weight cancelled (returned _) = 0

-- The operations, by how far they are.
load : System → ℕ
load s = 7 * length s.waiting + 6 * length s.running + 5 * length s.sending + 4 * length s.channel

pub measure_at : System → Phase → ℕ
unfolding alive weight load
measure_at s phase = load s + alive s.cancelled + weight s.cancelled phase

unfoldable pub measure : System → ℕ
unfolding measure_at
measure s = measure_at s s.phase

-- A step costs one. The head of a turn of the loop is paid for when the turn receives something, and
-- not at all when it receives nothing, nor is the end of such a turn.
unfoldable pub cost : Phase → Phase → ℕ
cost (looping true) (draining false) = 0
cost (draining false) (looping true) = 0
cost (draining false) (draining false) = 1
cost (draining false) _ = 2
cost _ _ = 1

pub cost_self : (phase : Phase) → cost phase phase ≡ 1
unfolding cost
cost_self (looping true) = refl
cost_self (looping false) = refl
cost_self (draining true) = refl
cost_self (draining false) = refl
cost_self (submitting _) = refl
cost_self finishing = refl
cost_self (returned _) = refl

enter_loop-measure :
    (again : Bool) (waiting : Waiting) (cancelled : Option Err)
    → weight cancelled (enter_loop again waiting cancelled)
        + cost (looping again) (enter_loop again waiting cancelled)
      ≤ weight cancelled (looping again)
unfolding enter_loop weight cost
enter_loop-measure true [] none = omega arith
enter_loop-measure true [] (some _) = omega arith
enter_loop-measure false [] cancelled = omega arith
enter_loop-measure false (e ∷ waiting) cancelled = omega arith
enter_loop-measure true (e ∷ waiting) (some cause) = omega arith
enter_loop-measure true (e ∷ waiting) none = omega arith

looping-measure : (cancelled : Option Err) → weight cancelled (looping true) ≤ 3
unfolding weight
looping-measure none = omega arith
looping-measure (some _) = omega arith

pub drain-measure :
    (got : Bool) (channel : List String) (s : System)
    → s.channel ≡ channel
    → measure (drain got channel s) + cost (draining got) ((drain got channel s).phase)
      ≤ measure_at s (draining got)
unfolding drain measure measure_at weight cost load
drain-measure true [] s at = omega arith
drain-measure false [] s at = let low = looping-measure s.cancelled in omega arith
drain-measure true (i ∷ channel) s at = rw (forget-length i s.waiting, at) (omega arith)
drain-measure false (i ∷ channel) s at = rw (forget-length i s.waiting, at) (omega arith)

pub submit-measure :
    (i : String) (batch : List String) (s : System)
    → waits s.waiting i ≡ true
    → measure (submit i batch s) + 1 ≤ measure_at s (submitting (i ∷ batch))
unfolding submit measure measure_at weight load
submit-measure i batch s m = let fewer = unschedule-length i s.waiting m in omega arith

returned_measure :
    (s : System)
    → measure (record s { phase = returned (outcome s.failure s.cancelled) })
        + cost finishing (returned (outcome s.failure s.cancelled))
      ≤ measure_at s finishing
unfolding measure measure_at weight cost load
returned_measure s = omega arith

weight_some :
    (e : Err) (phase : Phase)
    → alive (some e) + weight (some e) phase + 1 ≤ alive none + weight none phase
unfolding alive weight
weight_some e (looping true) = omega arith
weight_some e (looping false) = omega arith
weight_some e (draining false) = omega arith
weight_some e (draining true) = omega arith
weight_some e (submitting _) = omega arith
weight_some e finishing = omega arith
weight_some e (returned _) = omega arith

pub finish-measure :
    (running sending : List String) (s s' : System)
    → finish running sending s ≡ some s'
    → measure s' + cost finishing s'.phase ≤ measure_at s finishing
unfolding finish
finish-measure [] [] s s' h =
    subst (λ t. measure t + cost finishing t.phase ≤ measure_at s finishing) (some-injective h)
      (returned_measure s)
finish-measure [] (i ∷ sending) s s' h = cc
finish-measure (i ∷ running) [] s s' h = cc
finish-measure (i ∷ running) (j ∷ sending) s s' h = cc

first_of-alive :
    (cancelled : Option Err) (e : Err) (phase : Phase)
    → alive (first_of cancelled e) + weight (first_of cancelled e) phase
      ≤ alive cancelled + weight cancelled phase
unfolding first_of
first_of-alive none e phase = let less = weight_some e phase in omega arith
first_of-alive (some first) e phase = omega arith

-- The steps of the workers, for the operation that they take from its list.
pub complete_op-measure :
    (i : String) (s : System)
    → contains s.running i ≡ true
    → measure (complete_op i s) + 1 ≤ measure s
unfolding complete_op measure measure_at load
complete_op-measure i s h = let fewer = remove-length i s.running h in omega arith

pub fail_op-measure :
    (i : String) (e : Err) (s : System)
    → contains s.running i ≡ true
    → measure (fail_op i e s) + 1 ≤ measure s
unfolding fail_op measure measure_at load
fail_op-measure i e s h =
    let fewer = remove-length i s.running h in
    let rest = first_of-alive s.cancelled (wrap "context canceled" e) s.phase in omega arith

pub send_op-measure :
    (i : String) (s : System) → contains s.sending i ≡ true → measure (send_op i s) + 1 ≤ measure s
unfolding send_op measure measure_at load
send_op-measure i s h =
    let fewer = remove-length i s.sending h in rw (length-append s.channel i) (omega arith)

pub cancel_by-measure :
    (cause : Err) (s : System) → s.cancelled ≡ none → measure (cancel_by cause s) + 1 ≤ measure s
unfolding cancel_by measure measure_at load
cancel_by-measure cause s h = let less = weight_some cause s.phase in rw h (omega arith)

pub looped-measure :
    (again : Bool) (s : System)
    → measure (record s { phase = enter_loop again s.waiting s.cancelled })
        + cost (looping again) (enter_loop again s.waiting s.cancelled)
      ≤ measure_at s (looping again)
unfolding measure measure_at load
looped-measure again s = let less = enter_loop-measure again s.waiting s.cancelled in omega arith

pub submitted-measure :
    (s : System)
    → measure (record s { phase = looping true }) + cost (submitting []) (looping true)
      ≤ measure_at s (submitting [])
unfolding measure measure_at load weight cost
submitted-measure s = let less = looping-measure s.cancelled in omega arith

pub initial-measure : (ops : Waiting) → 0 + measure (initial_system ops) ≤ 7 * length ops + 7
unfolding measure measure_at load weight alive initial_system
initial-measure ops = omega arith
