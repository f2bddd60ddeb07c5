-- ===== src/Plan/Execute/Safety.antt =====
-- The invariant of an execution (pkg/plan/plan_execute.go) at every state, and what follows for the
-- operations.
use mathlib.Core.Logic.{⊎_elim}
use nelm.Base.{
  String, ◌+◌, Bool, true, some, [], ◌∷◌, ◌≡◌, ◌≢◌, refl, ap, sym, ◌∙◌, subst, ◌⊎◌, inl, inr, ok,
  All-map, length, ltb, some-injective, Bool-cases, ℤ,
}
use nelm.Plan.Operation.{
  OperationStatus, status_unknown, status_pending, status_completed, status_failed,
}
use nelm.Plan.Execute.{
  Waiting, Phase, looping, draining, submitting, finishing, returned, System, workers, advance_in,
  advance, Step, schedule, complete, fail, send, cancel, Reached, start, later, waits,
  IsPredecessorMap,
}
use nelm.Plan.Execute.Invariant.{InPhase, Invariant, initial_system-Invariant}
use nelm.Plan.Execute.Workers.{
  complete_op-Invariant, fail_op-Invariant, send_op-Invariant, cancel_by-Invariant,
}
use nelm.Plan.Execute.Scheduled.{rephase, enter_loop-InPhase, drain-Invariant}
use nelm.Plan.Execute.Submitted.{submit-Invariant, finish-Invariant}
use nelm.Plan.Graph.Paths.{Reaches, here, next}
use mathlib.Core.Bool.{false≢true}

module _ (edge : String → String → Bool) (ops : Waiting) where
  pub in_phase :
      (s : System) {phase : Phase}
      → Invariant edge ops s
      → s.phase ≡ phase
      → InPhase ops phase s.waiting s.cancelled s.status
  in_phase s v at = subst (λ p. InPhase ops p s.waiting s.cancelled s.status) at v.phase_lem

  advance_in-Invariant :
      (phase : Phase) (n : ℤ) (s s' : System)
      → s.phase ≡ phase
      → advance_in phase n s ≡ some s'
      → Invariant edge ops s
      → Invariant edge ops s'
  unfolding advance_in
  advance_in-Invariant (looping again) n s s' at h v =
      subst (Invariant edge ops) (some-injective h) (
        rephase edge ops s v _
          (enter_loop-InPhase edge ops s v again s.waiting s.cancelled v.keys (in_phase s v at)))
  advance_in-Invariant (draining got) n s s' at h v =
      subst (Invariant edge ops) (some-injective h)
        (drain-Invariant edge ops s v got s.channel refl (in_phase s v at))
  advance_in-Invariant (submitting []) n s s' at h v =
      subst (Invariant edge ops) (some-injective h) (
        rephase edge ops s v _ (
          All-map (λ e. ⊎_elim (λ b. b) (λ c. absurd (false≢true c))) s.waiting
            (in_phase s v at).2))
  advance_in-Invariant (submitting (i ∷ batch)) n s s' at h v =
      let phase = in_phase s v at in
      elim (Bool-cases (ltb (length s.running + length s.sending) (workers n))) [
        | inl free ↦
            subst (Invariant edge ops) (some-injective (rw free at h))
              (submit-Invariant edge ops s v i batch phase.1.0 phase)
        | inr full ↦ cc (rw full at h)
      ]
  advance_in-Invariant finishing n s s' at h v =
      finish-Invariant edge ops s v s.running s.sending s' refl h (in_phase s v at)
  advance_in-Invariant (returned r) n s s' at h v = cc

  pub Step-Invariant :
      (n : ℤ) (s s' : System) → Step n s s' → Invariant edge ops s → Invariant edge ops s'
  unfolding advance
  Step-Invariant n s s' (schedule _ h) v = advance_in-Invariant s.phase n s s' refl h v
  Step-Invariant n s _ (complete i h) v = complete_op-Invariant edge ops s v i h
  Step-Invariant n s _ (fail i e h) v = fail_op-Invariant edge ops s v i e h
  Step-Invariant n s _ (send i h room) v = send_op-Invariant edge ops s v i h
  Step-Invariant n s _ (cancel cause h) v = cancel_by-Invariant edge ops s v cause

  -- In every state of an execution of a predecessor map: the operations in the map are not started
  -- and wait for the predecessors that are not received as completed, those that a worker executes
  -- are exactly the pending ones, those on their way to the scheduler are completed, a failed one
  -- has cancelled the execution, and the phase of the scheduler agrees with the map.
  pub reached-Invariant :
      (n : ℤ) (s : System) → IsPredecessorMap edge ops → Reached n ops s → Invariant edge ops s
  reached-Invariant n _ m start = initial_system-Invariant edge ops m
  reached-Invariant n s' m (later {s} r step) =
      Step-Invariant n s s' step (reached-Invariant n s m r)

  -- In every state of an execution, whatever failed or was cancelled, an operation that was handed
  -- to a worker (pending, completed or failed) has every operation with an edge to it completed.
  pub started-completed :
      (n : ℤ) (s : System)
      → IsPredecessorMap edge ops
      → Reached n ops s
      → (p i : String) → edge p i ≡ true
      → s.status i ≢ status_unknown
      → s.status p ≡ status_completed
  started-completed n s m r = (reached-Invariant n s m r).order

  -- The same along a walk: what an operation is reached from is completed before it starts.
  pub started-Reaches :
      (n : ℤ) (s : System)
      → IsPredecessorMap edge ops
      → Reached n ops s
      → (p i : String) → Reaches edge p i
      → s.status i ≢ status_unknown
      → (p ≡ i) ⊎ (s.status p ≡ status_completed)
  started-Reaches n s m r p i here h = inl refl
  started-Reaches n s m r p i (next {b = b} e walk) h = inr (
      started-completed n s m r p b e (λ u.
        ⊎_elim (λ same. h (sym (ap s.status same) ∙ u)) (λ c. absurd (cc (u, c)))
          (started-Reaches n s m r b i walk h)))

  -- When an operation has failed, no operation that is reached from it along at least one edge was
  -- ever handed to a worker.
  pub failed-unstarted :
      (n : ℤ) (s : System)
      → IsPredecessorMap edge ops
      → Reached n ops s
      → (p q i : String) → edge p q ≡ true
      → Reaches edge q i
      → s.status p ≡ status_failed
      → s.status i ≡ status_unknown
  failed-unstarted n s m r p q i e walk broken = unless_started (s.status i) refl
    where
      reaches_started : s.status i ≢ status_unknown → s.status p ≡ status_completed
      reaches_started h = started-completed n s m r p q e (λ u.
          ⊎_elim (λ same. h (sym (ap s.status same) ∙ u)) (λ c. absurd (cc (u, c)))
            (started-Reaches n s m r q i walk h))

      unless_started :
          (status : OperationStatus) → s.status i ≡ status → s.status i ≡ status_unknown
      unless_started status_unknown h = h
      unless_started status_pending h =
          absurd (cc (broken, reaches_started (λ u. absurd (cc (h, u)))))
      unless_started status_completed h =
          absurd (cc (broken, reaches_started (λ u. absurd (cc (h, u)))))
      unless_started status_failed h =
          absurd (cc (broken, reaches_started (λ u. absurd (cc (h, u)))))

  -- When ExecutePlan returns nil, every operation of the plan is completed.
  pub returned-completed :
      (n : ℤ) (s : System)
      → IsPredecessorMap edge ops
      → Reached n ops s
      → s.phase ≡ returned (ok tt)
      → (i : String) → waits ops i ≡ true
      → s.status i ≡ status_completed
  returned-completed n s m r at = in_phase s (reached-Invariant n s m r) at refl
