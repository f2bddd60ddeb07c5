-- ===== src/Plan/Execute/Termination.antt =====
-- An execution (pkg/plan/plan_execute.go) takes finitely many steps, besides the turns of its loop
-- that receive nothing.
use nelm.Base.{
  String, ℕ, true, false, ◌+◌, ◌*◌, ◌≤◌, Bool, some, [], ◌∷◌, ◌≡◌, refl, subst, inl, inr, length,
  ltb, arith, some-injective, Bool-cases, ℤ,
}
use nelm.Plan.Execute.{
  Waiting, Phase, looping, draining, submitting, finishing, returned, System, workers,
  initial_system, advance_in, advance, complete_op, fail_op, send_op, cancel_by, Step, schedule,
  complete, fail, send, cancel, Reached, start, later, IsPredecessorMap,
}
use nelm.Plan.Execute.Membership.{mem-waits}
use nelm.Plan.Execute.Invariant.{Invariant}
use nelm.Plan.Execute.Safety.{reached-Invariant, in_phase}
use nelm.Plan.Execute.Measure.{
  measure, measure_at, cost, cost_self, drain-measure, submit-measure, finish-measure,
  complete_op-measure, fail_op-measure, send_op-measure, cancel_by-measure, looped-measure,
  submitted-measure, initial-measure,
}

-- A step that ends a turn of the loop that received nothing.
unfoldable pub is_idle : Phase → Phase → ℕ
is_idle (draining false) (looping true) = 1
is_idle _ _ = 0

-- A turn whose head is not paid for yet.
is_open : Phase → ℕ
is_open (draining false) = 1
is_open _ = 0

is_open-le : (phase : Phase) → is_open phase ≤ 1
unfolding is_open
is_open-le (draining false) = omega arith
is_open-le (draining true) = omega arith
is_open-le (looping _) = omega arith
is_open-le (submitting _) = omega arith
is_open-le finishing = omega arith
is_open-le (returned _) = omega arith

-- What is unpaid is an idle turn, or the head of the turn that is open.
cost-idle :
    (before after : Phase)
    → is_open before + 1 ≤ cost before after + 2 * is_idle before after + is_open after
unfolding is_open is_idle cost
cost-idle (looping true) (draining false) = omega arith
cost-idle (looping true) (draining true) = omega arith
cost-idle (looping true) (looping _) = omega arith
cost-idle (looping true) (submitting _) = omega arith
cost-idle (looping true) finishing = omega arith
cost-idle (looping true) (returned _) = omega arith
cost-idle (draining false) (draining false) = omega arith
cost-idle (draining false) (draining true) = omega arith
cost-idle (draining false) (looping true) = omega arith
cost-idle (draining false) (looping false) = omega arith
cost-idle (draining false) (submitting _) = omega arith
cost-idle (draining false) finishing = omega arith
cost-idle (draining false) (returned _) = omega arith
cost-idle (looping false) after = omega arith
cost-idle (draining true) after = omega arith
cost-idle (submitting _) after = omega arith
cost-idle finishing after = omega arith
cost-idle (returned _) after = omega arith

module _ (edge : String → String → Bool) (ops : Waiting) where
  advance_in-measure :
      (phase : Phase) (n : ℤ) (s s' : System)
      → s.phase ≡ phase
      → advance_in phase n s ≡ some s'
      → Invariant edge ops s
      → measure s' + cost phase s'.phase ≤ measure_at s phase
  unfolding advance_in cost
  advance_in-measure (looping again) n s s' at h v =
      subst (λ t. measure t + cost (looping again) t.phase ≤ measure_at s (looping again))
        (some-injective h) (looped-measure again s)
  advance_in-measure (draining got) n s s' at h v =
      subst (λ t. measure t + cost (draining got) t.phase ≤ measure_at s (draining got))
        (some-injective h) (drain-measure got s.channel s refl)
  advance_in-measure (submitting []) n s s' at h v =
      subst (λ t. measure t + cost (submitting []) t.phase ≤ measure_at s (submitting []))
        (some-injective h) (submitted-measure s)
  advance_in-measure (submitting (i ∷ batch)) n s s' at h v =
      elim (Bool-cases (ltb (length s.running + length s.sending) (workers n))) [
        | inl free ↦
            subst
              (λ t.
                measure t + cost (submitting (i ∷ batch)) t.phase
                ≤ measure_at s (submitting (i ∷ batch)))
              (some-injective (rw free at h))
              (submit-measure i batch s
                (mem-waits s.waiting (i, []) (in_phase edge ops s v at).1.0))
        | inr full ↦ cc (rw full at h)
      ]
  advance_in-measure finishing n s s' at h v = finish-measure s.running s.sending s s' h
  advance_in-measure (returned r) n s s' at h v = cc

  -- Every step of an execution pays its cost.
  pub Step-measure :
      (n : ℤ) (s s' : System)
      → Step n s s'
      → Invariant edge ops s
      → measure s' + cost s.phase s'.phase ≤ measure s
  unfolding advance complete_op fail_op send_op cancel_by measure
  Step-measure n s s' (schedule _ h) v = advance_in-measure s.phase n s s' refl h v
  Step-measure n s _ (complete i h) v = rw (cost_self s.phase) (complete_op-measure i s h)
  Step-measure n s _ (fail i e h) v = rw (cost_self s.phase) (fail_op-measure i e s h)
  Step-measure n s _ (send i h room) v = rw (cost_self s.phase) (send_op-measure i s h)
  Step-measure n s _ (cancel cause h) v = rw (cost_self s.phase) (cancel_by-measure cause s h)

  -- The cost of the steps that led to a state.
  unfoldable pub spent : {n : ℤ} {s : System} → Reached n ops s → ℕ
  unfolding cost
  spent start = 0
  spent (later {s = s} {s' = s'} r step) = spent r + cost s.phase s'.phase

  -- All steps that led to a state.
  unfoldable pub steps : {n : ℤ} {s : System} → Reached n ops s → ℕ
  steps start = 0
  steps (later r step) = steps r + 1

  -- The turns of the scheduler's loop that received nothing, counted where they end.
  unfoldable pub idle_turns : {n : ℤ} {s : System} → Reached n ops s → ℕ
  unfolding is_idle
  idle_turns start = 0
  idle_turns (later {s = s} {s' = s'} r step) = idle_turns r + is_idle s.phase s'.phase

  spent-measure :
      {n : ℤ} {s : System} (m : IsPredecessorMap edge ops) (r : Reached n ops s)
      → spent r + measure s ≤ 7 * length ops + 7
  unfolding spent initial_system
  spent-measure m start = initial-measure ops
  spent-measure {n = n} m (later {s = s} {s' = s'} r step) =
      let before = spent-measure m r in
      let paid = Step-measure n s s' step (reached-Invariant edge ops n s m r) in omega arith

  steps-spent :
      {n : ℤ} {s : System} (r : Reached n ops s)
      → steps r ≤ spent r + 2 * idle_turns r + is_open s.phase
  unfolding steps idle_turns spent initial_system
  steps-spent start = omega arith
  steps-spent (later {s = s} {s' = s'} r step) =
      let before = steps-spent r in let unpaid = cost-idle s.phase s'.phase in omega arith

  -- An execution of a plan takes at most seven steps per operation and eight more, and two more for
  -- each turn of the scheduler's loop that received nothing (its head and its end), however the
  -- workers interleave with the scheduler and whatever fails. Every step is counted.
  pub steps-bound :
      {n : ℤ} {s : System} (m : IsPredecessorMap edge ops) (r : Reached n ops s)
      → steps r ≤ 7 * length ops + 8 + 2 * idle_turns r
  steps-bound {s = s} m r =
      let paid = spent-measure m r in
      let counted = steps-spent r in let one = is_open-le s.phase in omega arith
