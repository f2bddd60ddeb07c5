-- ===== src/Plan/Execute/Workers.antt =====
-- The steps of a worker and the cancellation from outside (pkg/plan/plan_execute.go) as steps that
-- keep the invariant.

-- The cause of a cancellation stays.
use nelm.Base.{
  String, Bool, true, Option, none, some, ◌≡◌, refl, sym, ◌∙◌, subst, ◌==◌, inl, inr, Err, contains,
  arith, eq_iff, Bool-cases,
}
use nelm.Plan.Operation.{status_unknown, status_pending, status_completed, status_failed}
use nelm.Plan.Execute.{Waiting, System, first_of, complete_op, fail_op, send_op, cancel_by}
use nelm.Plan.Execute.Membership.{contains-append, remove-contains, remove-keeps}
use nelm.Plan.Execute.Invariant.{Sent, Invariant, set_status-at, set_status-other}
use nelm.Plan.Execute.Preserved.{Advances-Invariant, set-stays, set-other, set-running}

first_of-stays :
    (cancelled : Option Err) (e cause : Err)
    → cancelled ≡ some cause
    → (c : Err) × (first_of cancelled e ≡ some c)
unfolding first_of
first_of-stays none e cause h = (e, refl)
first_of-stays (some first) e cause h = (first, refl)

first_of-some : (cancelled : Option Err) (e : Err) → (c : Err) × (first_of cancelled e ≡ some c)
unfolding first_of
first_of-some none e = (e, refl)
first_of-some (some first) e = (first, refl)

module _ (edge : String → String → Bool) (ops : Waiting) (s : System)
    (v : Invariant edge ops s) where
  pub complete_op-Invariant :
      (i : String) → contains s.running i ≡ true → Invariant edge ops (complete_op i s)
  unfolding complete_op
  complete_op-Invariant i running =
      let at = v.pending i running in
      Advances-Invariant edge ops s (complete_op i s)
        (record {
          phases = refl;
          waits_same = refl;
          unstarted = λ j h. set-stays i status_completed s at status_unknown (λ e. cc) j h;
          started = λ j h. (set-other i status_completed s at status_unknown (λ e. cc) j h).1;
          done = λ j h. set-stays i status_completed s at status_completed (λ e. cc) j h;
          stays = λ c h. (c, h);
          sent = λ j h was. elim (Bool-cases (i == j)) [
            | inl e ↦ rw e refl
            | inr e ↦ rw e (was (sym (set_status-other i status_completed s.status j e) ∙ h))
          ];
        })
        (record {
          pending = λ j h. set-running i status_completed s at j h v.pending;
          busy = λ j h.
              let (e, was) = set-other i status_completed s at status_pending (λ e. cc) j h in
              remove-keeps i s.running j e (v.busy j was);
          completed = λ j h. elim (Bool-cases (i == j)) [
            | inl e ↦ set_status-at i status_completed s.status j e
            | inr e ↦ set_status-other i status_completed s.status j e ∙ v.completed j (rw e at h)
          ];
          broken =
              λ j h. v.broken j (set-other i status_completed s at status_failed (λ e. cc) j h).1;
        })
        v

  pub fail_op-Invariant :
      (i : String) (e : Err) → contains s.running i ≡ true → Invariant edge ops (fail_op i e s)
  unfolding fail_op
  fail_op-Invariant i failure running =
      let at = v.pending i running in
      Advances-Invariant edge ops s (fail_op i failure s)
        (record {
          phases = refl;
          waits_same = refl;
          unstarted = λ j h. set-stays i status_failed s at status_unknown (λ e. cc) j h;
          started = λ j h. (set-other i status_failed s at status_unknown (λ e. cc) j h).1;
          done = λ j h. set-stays i status_failed s at status_completed (λ e. cc) j h;
          stays = λ c h. first_of-stays s.cancelled _ c h;
          sent = λ j h was. was (set-other i status_failed s at status_completed (λ e. cc) j h).1;
        })
        (record {
          pending = λ j h. set-running i status_failed s at j h v.pending;
          busy = λ j h.
              let (e, was) = set-other i status_failed s at status_pending (λ e. cc) j h in
              remove-keeps i s.running j e (v.busy j was);
          completed =
              λ j h. set-stays i status_failed s at status_completed (λ e. cc) j (v.completed j h);
          broken = λ j h. first_of-some s.cancelled _;
        })
        v

  -- A send moves the identifier between the two lists of Sent.
  send_op-Sent : (i j : String) → contains s.sending i ≡ true → Sent s j → Sent (send_op i s) j
  unfolding send_op
  send_op-Sent i j sending h = elim (Bool-cases (i == j)) [
    | inl e ↦ rw (contains-append s.channel i j, e) (ground (arith))
    | inr e ↦
        rw (contains-append s.channel i j, remove-contains i s.sending j, e) (ground (arith, h))
  ]

  Sent-send_op : (i j : String) → contains s.sending i ≡ true → Sent (send_op i s) j → Sent s j
  unfolding send_op
  Sent-send_op i j sending h = elim (Bool-cases (i == j)) [
    | inl e ↦
        let same : contains s.sending j ≡ true =
          subst (λ k. contains s.sending k ≡ true) ((eq_iff i j).0 e) sending in
        rw same refl
    | inr e ↦
        let moved = rw (contains-append s.channel i j, remove-contains i s.sending j, e) at h in
        ground (arith, moved)
  ]

  pub send_op-Invariant :
      (i : String) → contains s.sending i ≡ true → Invariant edge ops (send_op i s)
  unfolding send_op
  send_op-Invariant i sending =
      Advances-Invariant edge ops s (send_op i s)
        (record {
          phases = refl;
          waits_same = refl;
          unstarted = λ j h. h;
          started = λ j h. h;
          done = λ j h. h;
          stays = λ c h. (c, h);
          sent = λ j h was. send_op-Sent i j sending (was h);
        })
        (record {
          pending = v.pending;
          busy = v.busy;
          completed = λ j h. v.completed j (Sent-send_op i j sending h);
          broken = v.broken;
        })
        v

  pub cancel_by-Invariant : (cause : Err) → Invariant edge ops (cancel_by cause s)
  unfolding cancel_by
  cancel_by-Invariant cause =
      Advances-Invariant edge ops s (cancel_by cause s)
        (record {
          phases = refl;
          waits_same = refl;
          unstarted = λ j h. h;
          started = λ j h. h;
          done = λ j h. h;
          stays = λ c h. (cause, refl);
          sent = λ j h was. was h;
        })
        (record {
          pending = v.pending;
          busy = v.busy;
          completed = v.completed;
          broken = λ j h. (cause, refl);
        })
        v
