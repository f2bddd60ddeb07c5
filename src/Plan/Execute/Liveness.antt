-- ===== src/Plan/Execute/Liveness.antt =====
-- An execution (pkg/plan/plan_execute.go) of an acyclic plan never gets stuck.
use mathlib.Core.WellFounded.{Acc}
use nelm.Base.{
  String, ℕ, zero, suc, ◌≤◌, ◌<◌, Bool, true, false, none, some, List, [], ◌∷◌, ◌≡◌, refl, ap, ◌∙◌,
  subst, ◌⊎◌, inl, inr, Result, ok, Err, All, length, ltb, arith, Option-cases, ℤ,
}
use nelm.Plan.Execute.{
  Waiting, Phase, looping, draining, submitting, finishing, returned, System, channel_capacity,
  workers, find_executable_ops_ids, enter_loop, drain, submit, outcome, finish, advance_in, advance,
  schedule, Reached, later, IsPredecessorMap,
}
use nelm.Plan.Execute.Membership.{Blocked, text_eq_self}
use nelm.Plan.Execute.Invariant.{Invariant}
use nelm.Plan.Execute.Safety.{reached-Invariant, in_phase}
use nelm.Plan.Execute.Measure.{measure, cost}
use nelm.Plan.Execute.Capacity.{send-room, workers-pos}
use nelm.Plan.Execute.Nearer.{
  Continues, stop, Continues-Reached, Continues-trans, Nearer, by_advance, by_receipt, by_complete,
  by_send, stuck, by_two,
}
use nelm.Plan.Execute.Outcome.{reached-Intact}

none_less : ¬ 0 < 0
none_less h = omega arith

abbrev List-cases :
    {A : Type 0} (l : List A) → (l ≡ []) ⊎ ((x : A) × (rest : List A) × (l ≡ x ∷ rest))
List-cases [] = inl refl
List-cases (x ∷ rest) = inr (x, rest, refl)

-- The plan has no cycle.
abbrev pub IsAcyclic : (String → String → Bool) → Type 0
IsAcyclic edge = (i : String) → Acc (λ p i. edge p i ≡ true) i

module _ (edge : String → String → Bool) (ops : Waiting) (n : ℤ) (s : System)
    (v : Invariant edge ops s) where
  -- The scheduler while no worker is busy.
  module _ (run : s.running ≡ []) (sent : s.sending ≡ []) (m : IsPredecessorMap edge ops)
      (acyclic : IsAcyclic edge) where
    stuck_waiting :
        (e : String × List String) (rest : Waiting)
        → s.waiting ≡ e ∷ rest
        → s.channel ≡ []
        → s.cancelled ≡ none
        → All (λ e. Blocked e.1) s.waiting
        → Nearer n s
    stuck_waiting e rest at empty intact blocked = absurd (
        stuck edge ops n s v m run sent empty intact blocked e.0 (acyclic e.0)
          (rw (at, text_eq_self e.0) refl))

    receive-Nearer :
        (got : Bool) (i : String) (l : List String)
        → s.channel ≡ i ∷ l
        → s.phase ≡ draining got
        → Nearer n s
    unfolding advance_in drain cost
    receive-Nearer true i l full at =
        by_advance edge ops n s v (draining true) (drain true (i ∷ l) s) at (rw full refl) refl refl
          refl
    receive-Nearer false i l full at =
        by_receipt edge ops n s v (drain false (i ∷ l) s) at (rw full refl) refl refl refl

    leave-Nearer : (cause : Err) → s.cancelled ≡ some cause → s.phase ≡ looping true → Nearer n s
    unfolding advance_in enter_loop cost
    leave-Nearer cause c at = elim (List-cases s.waiting) [
      | inl w ↦
          by_advance edge ops n s v (looping true) (record s { phase = finishing }) at
            (rw (w, c) refl) refl refl refl
      | inr (e, rest, w) ↦
          by_advance edge ops n s v (looping true) (record s { phase = finishing }) at
            (rw (w, c) refl) refl refl refl
    ]

  finish-Nearer : s.running ≡ [] → s.sending ≡ [] → s.phase ≡ finishing → Nearer n s
  unfolding advance_in finish cost
  finish-Nearer run sent at =
      by_advance edge ops n s v finishing
        (record s { phase = returned (outcome s.failure s.cancelled) }) at (rw (run, sent) refl)
        refl refl refl

  submit-Nearer :
      (batch : List String)
      → s.running ≡ []
      → s.sending ≡ []
      → s.phase ≡ submitting batch
      → Nearer n s
  unfolding advance_in submit cost
  submit-Nearer [] run sent at =
      by_advance edge ops n s v (submitting []) (record s { phase = looping true }) at refl refl
        refl refl
  submit-Nearer (i ∷ batch) run sent at =
      let free : ltb 0 (workers n) ≡ true = (let some_worker = workers-pos n in ground (arith)) in
      by_advance edge ops n s v (submitting (i ∷ batch)) (submit i batch s) at
        (rw (run, sent, free) refl) refl refl refl

module _ (edge : String → String → Bool) (ops : Waiting) (n : ℤ) (m : IsPredecessorMap edge ops)
    (small : length ops ≤ channel_capacity) (acyclic : IsAcyclic edge) where
  phase_step :
      (s : System) (phase : Phase)
      → Reached n ops s
      → advance n s ≡ some (record s { phase = phase })
      → Reached n ops (record s { phase = phase })
  phase_step s phase r h = later r (schedule _ h)

  module _ (s : System) (r : Reached n ops s) (run : s.running ≡ []) (sent : s.sending ≡ []) where
    -- The head of the loop, once it has run.
    loop-Nearer : s.phase ≡ looping true → Nearer n s
    unfolding advance advance_in enter_loop cost
    loop-Nearer at = elim (Option-cases s.cancelled) [
      | inr (cause, c) ↦ leave-Nearer edge ops n s v run sent m acyclic cause c at
      | inl intact ↦ elim (List-cases s.waiting) [
        | inl w ↦
            by_advance edge ops n s v (looping true) (record s { phase = finishing }) at
              (rw (w, intact) refl) refl refl refl
        | inr (e, rest, w) ↦ elim (List-cases s.channel) [
          | inl empty ↦
              stuck_waiting edge ops n s v run sent m acyclic e rest w empty intact
                (in_phase edge ops s v at)
          | inr (i, l, full) ↦
              let step : advance n s ≡ some (record s { phase = draining false }) =
                rw (at, w, intact) refl in
              by_two edge ops n s v (record s { phase = draining false }) (schedule _ step) refl
                refl
                (receive-Nearer edge ops n (record s { phase = draining false })
                  (reached-Invariant edge ops n _ m (phase_step s (draining false) r step)) run sent
                  m acyclic false i l full refl)
        ]
      ]
    ]
      where
        v : Invariant edge ops s
        v = reached-Invariant edge ops n s m r

    first-Nearer : s.phase ≡ looping false → Nearer n s
    unfolding advance_in cost
    first-Nearer at =
        by_advance edge ops n s (reached-Invariant edge ops n s m r) (looping false)
          (record s { phase = enter_loop false s.waiting s.cancelled }) at refl refl refl refl

    drain-Nearer : (got : Bool) → s.phase ≡ draining got → Nearer n s
    unfolding advance advance_in drain cost
    drain-Nearer got at = elim (List-cases s.channel) [
      | inr (i, l, full) ↦ receive-Nearer edge ops n s v run sent m acyclic got i l full at
      | inl empty ↦ over got at empty
    ]
      where
        v : Invariant edge ops s
        v = reached-Invariant edge ops n s m r

        waiting-Nearer : s.phase ≡ draining false → s.channel ≡ [] → s.cancelled ≡ none → Nearer n s
        waiting-Nearer at empty intact = elim (List-cases s.waiting) [
          | inl w ↦ absurd (none_less (subst (λ l. 0 < length l) w (in_phase edge ops s v at).0))
          | inr (e, rest, w) ↦
              stuck_waiting edge ops n s v run sent m acyclic e rest w empty intact
                (in_phase edge ops s v at).1
        ]

        over : (got : Bool) → s.phase ≡ draining got → s.channel ≡ [] → Nearer n s
        over true at empty =
            by_advance edge ops n s v (draining true)
              (record s { phase = submitting (find_executable_ops_ids s.waiting) }) at
              (rw empty refl) refl refl refl
        over false at empty = elim (Option-cases s.cancelled) [
          | inl intact ↦ waiting-Nearer at empty intact
          | inr (cause, c) ↦
              let step : advance n s ≡ some (record s { phase = looping true }) =
                rw (at, empty) refl in
              by_two edge ops n s v (record s { phase = looping true }) (schedule _ step) refl refl
                (leave-Nearer edge ops n (record s { phase = looping true })
                  (reached-Invariant edge ops n _ m (phase_step s (looping true) r step)) run sent m
                  acyclic cause c refl)
        ]

    idle-Nearer :
        (phase : Phase)
        → s.phase ≡ phase
        → ((result : Result {0} Unit) × (phase ≡ returned result)) ⊎ Nearer n s
    idle-Nearer (looping true) at = inr (loop-Nearer at)
    idle-Nearer (looping false) at = inr (first-Nearer at)
    idle-Nearer (draining got) at = inr (drain-Nearer got at)
    idle-Nearer (submitting batch) at =
        inr (submit-Nearer edge ops n s (reached-Invariant edge ops n s m r) batch run sent at)
    idle-Nearer finishing at =
        inr (finish-Nearer edge ops n s (reached-Invariant edge ops n s m r) run sent at)
    idle-Nearer (returned result) at = inl (result, refl)

  -- A state is the last one, or nearer ones follow.
  nearer :
      (s : System)
      → Reached n ops s
      → ((result : Result {0} Unit) × (s.phase ≡ returned result)) ⊎ Nearer n s
  nearer s r = elim (List-cases s.running) [
    | inr (i, l, busy) ↦
        inr (by_complete edge ops n s (reached-Invariant edge ops n s m r) i l busy)
    | inl run ↦ elim (List-cases s.sending) [
      | inr (i, l, busy) ↦ inr (
          by_send edge ops n s (reached-Invariant edge ops n s m r) i l busy
            (send-room edge ops n s m r small))
      | inl sent ↦ idle-Nearer s r run sent s.phase refl
    ]
  ]

  -- An end of the execution that the state leads to.
  record Ends (s : System) : Type 0 where
    end : System
    steps : Continues n s end
    result : Result {0} Unit
    returns : end.phase ≡ returned result
    nil : s.cancelled ≡ none → result ≡ ok tt

  end_within : (k : ℕ) (s : System) → Reached n ops s → measure s < k → Ends s
  end_within zero s r h = absurd (omega arith)
  end_within (suc k) s r h = elim (nearer s r) [
    | inl (result, at) ↦ record {
      end = s;
      steps = stop;
      result = result;
      returns = at;
      nil = (reached-Intact n ops s r).nil result at;
    }
    | inr near ↦
        let less = near.less in
        let rest =
          end_within k near.next_state (Continues-Reached n ops r near.steps) (omega arith) in
        record {
          end = rest.end;
          steps = Continues-trans n near.steps rest.steps;
          result = rest.result;
          returns = rest.returns;
          nil = λ intact. rest.nil (near.same_cause ∙ intact);
        }
  ]

  -- From every state of an execution of an acyclic plan of at most 100000 operations, whatever failed
  -- or was cancelled so far, some further steps make ExecutePlan return.
  pub execution-returns :
      (s : System)
      → Reached n ops s
      → (end : System) × (result : Result {0} Unit) × Continues n s end
        × (end.phase ≡ returned result)
  execution-returns s r =
      let e = end_within (suc (measure s)) s r (omega arith) in
      (e.end, e.result, e.steps, e.returns)

  -- The same while nothing has failed or was cancelled: some further steps make it return nil.
  pub execution-returns_nil :
      (s : System)
      → Reached n ops s
      → s.cancelled ≡ none
      → (end : System) × Continues n s end × (end.phase ≡ returned (ok tt))
  execution-returns_nil s r intact =
      let e = end_within (suc (measure s)) s r (omega arith) in
      (e.end, e.steps, e.returns ∙ ap returned (e.nil intact))
