-- ===== src/Plan/Execute/Nearer.antt =====
-- The steps of an execution (pkg/plan/plan_execute.go) that bring it nearer to its end.
use mathlib.Core.WellFounded.{Acc}
-- The states that some further steps lead to.

use nelm.Base.{
  ℕ, ◌+◌, false, String, ◌<◌, Bool, true, none, some, List, [], ◌∷◌, ◌≡◌, refl, ap, sym, ◌∙◌, ◌||◌,
  contains, All, All-at, length, ltb, arith, ℤ,
}
use nelm.Plan.Operation.{
  OperationStatus, status_unknown, status_pending, status_completed, status_failed,
}
use nelm.Plan.Execute.{
  draining, Waiting, Phase, System, channel_capacity, advance_in, advance, complete_op, send_op,
  Step, schedule, complete, send, Reached, later, waits, IsPredecessorMap,
}
use nelm.Plan.Execute.Membership.{Blocked, text_eq_self, waits-mem}
use nelm.Plan.Execute.Invariant.{Sent, Awaits, Invariant}
use nelm.Plan.Execute.Measure.{measure, cost, cost_self}
use nelm.Plan.Execute.Termination.{Step-measure}
use mathlib.Core.Bool.{false≢true}

pub data Continues (n : ℤ) (s : System) : System → Type 0 where
  stop : Continues n s s
  go_on : {t u : System} → Continues n s t → Step n t u → Continues n s u

pub Continues-Reached :
    (n : ℤ) (ops : Waiting) {s t : System} → Reached n ops s → Continues n s t → Reached n ops t
Continues-Reached n ops r stop = r
Continues-Reached n ops r (go_on c step) = later (Continues-Reached n ops r c) step

pub Continues-trans : (n : ℤ) {s t u : System} → Continues n s t → Continues n t u → Continues n s u
Continues-trans n c stop = c
Continues-trans n c (go_on d step) = go_on (Continues-trans n c d) step

-- A step or two that bring the execution nearer to its end, without a failure.
pub record Nearer (n : ℤ) (s : System) : Type 0 where
  pub next_state : System
  pub steps : Continues n s next_state
  pub less : measure next_state < measure s
  pub same_cause : next_state.cancelled ≡ s.cancelled
  pub same_failure : next_state.failure ≡ s.failure

module _ (edge : String → String → Bool) (ops : Waiting) (n : ℤ) (s : System)
    (v : Invariant edge ops s) where
  -- A step that costs is nearer.
  by-Step :
      (s' : System)
      → Step n s s'
      → s'.cancelled ≡ s.cancelled
      → s'.failure ≡ s.failure
      → (k : ℕ) → cost s.phase s'.phase ≡ 1 + k
      → Nearer n s
  by-Step s' step cause failure k paid_for = record {
    next_state = s';
    steps = go_on stop step;
    less = let paid = Step-measure edge ops n s s' step v in omega arith;
    same_cause = cause;
    same_failure = failure;
  }

  pub by_receipt :
      (s' : System)
      → s.phase ≡ draining false
      → advance_in (draining false) n s ≡ some s'
      → s'.cancelled ≡ s.cancelled
      → s'.failure ≡ s.failure
      → cost (draining false) s'.phase ≡ 2
      → Nearer n s
  unfolding advance
  by_receipt s' at h cause failure two =
      by-Step s' (schedule s' (ap (λ p. advance_in p n s) at ∙ h)) cause failure 1
        (ap (λ p. cost p s'.phase) at ∙ two)

  pub by_advance :
      (phase : Phase) (s' : System)
      → s.phase ≡ phase
      → advance_in phase n s ≡ some s'
      → s'.cancelled ≡ s.cancelled
      → s'.failure ≡ s.failure
      → cost phase s'.phase ≡ 1
      → Nearer n s
  unfolding advance
  by_advance phase s' at h cause failure one =
      by-Step s' (schedule s' (ap (λ p. advance_in p n s) at ∙ h)) cause failure 0
        (ap (λ p. cost p s'.phase) at ∙ one)

  -- A busy worker can end its operation, or send.
  pub by_complete : (i : String) (l : List String) → s.running ≡ i ∷ l → Nearer n s
  unfolding complete_op
  by_complete i l at =
      by-Step (complete_op i s) (complete i (rw (at, text_eq_self i) refl)) refl refl 0
        (cost_self s.phase)

  pub by_send :
      (i : String) (l : List String)
      → s.sending ≡ i ∷ l
      → ((i : String)
          → contains s.sending i ≡ true
          → ltb (length s.channel) channel_capacity ≡ true)
      → Nearer n s
  unfolding send_op
  by_send i l at room =
      let listed : contains s.sending i ≡ true = rw (at, text_eq_self i) refl in
      by-Step (send_op i s) (send i listed (room i listed)) refl refl 0 (cost_self s.phase)

  -- With no worker, no message and no cancellation, no operation can wait for another.
  pub stuck :
      IsPredecessorMap edge ops
      → s.running ≡ []
      → s.sending ≡ []
      → s.channel ≡ []
      → s.cancelled ≡ none
      → All (λ e. Blocked e.1) s.waiting
      → (i : String) → Acc (λ p i. edge p i ≡ true) i
      → waits s.waiting i ≡ true
      → ⊥
  stuck m run sent empty intact blocked i (Acc.intro _ before) w =
      let (ps, mem) = waits-mem s.waiting i w in
      let (p, has) = All-at (λ e. Blocked e.1) (i, ps) s.waiting mem blocked in
      let entry = All-at (Awaits edge s) (i, ps) s.waiting mem v.entries in
      let e = entry.edges p has in
      by_status p
        (λ u. stuck m run sent empty intact blocked p (before p e) (v.known p (m.sources p i e) u))
        (entry.unsent p has) (s.status p) refl
    where
      by_status :
          (p : String)
          → (s.status p ≡ status_unknown → ⊥)
          → (s.status p ≡ status_completed → Sent s p)
          → (status : OperationStatus) → s.status p ≡ status
          → ⊥
      by_status p unstarted unsent status_unknown h = unstarted h
      by_status p unstarted unsent status_pending h =
          false≢true (sym (ap (λ l. contains l p) run) ∙ v.busy p h)
      by_status p unstarted unsent status_completed h = false≢true (
          sym (ap (λ l. contains l p || contains s.channel p) sent ∙ ap (λ l. contains l p) empty)
          ∙ unsent h)
      by_status p unstarted unsent status_failed h =
          let (cause, c) = v.broken p h in absurd (cc (intact, c))

  -- A step that may cost nothing, and then a nearer state.
  pub by_two :
      (t : System)
      → Step n s t
      → t.cancelled ≡ s.cancelled
      → t.failure ≡ s.failure
      → Nearer n t
      → Nearer n s
  by_two t step cause failure near = record {
    next_state = near.next_state;
    steps = Continues-trans n (go_on stop step) near.steps;
    less = let paid = Step-measure edge ops n s t step v in let after = near.less in omega arith;
    same_cause = near.same_cause ∙ cause;
    same_failure = near.same_failure ∙ failure;
  }
