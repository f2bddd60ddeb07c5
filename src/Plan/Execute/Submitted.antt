-- ===== src/Plan/Execute/Submitted.antt =====
-- The submission of an operation to the pool, and the end of ExecutePlan
-- (pkg/plan/plan_execute.go), keep the invariant.
use mathlib.Core.Logic.{⊎_elim}
-- What is left of a batch stays executable.
use nelm.Base.{
  String, Bool, true, false, Option, none, some, List, [], ◌∷◌, Memᴰ, ◌≡◌, ◌≢◌, refl, ap, sym, ◌∙◌,
  subst, ◌==◌, ◌⊎◌, inl, inr, ok, Err, contains, All, All-map, All-at, arith, eq_iff,
  some-injective, Bool-cases,
}
use nelm.Plan.Operation.{
  OperationStatus, status_unknown, status_pending, status_completed, status_failed,
}
use nelm.Plan.Execute.{
  Waiting, submitting, finishing, returned, System, unschedule, set_status, submit, outcome, finish,
  waits,
}
use nelm.Plan.Execute.Membership.{
  Blocked, text_ne_sym, waits-unschedule, All-unschedule, unschedule-DistinctKeys, unschedule-mem,
}
use nelm.Plan.Execute.Invariant.{
  Awaits, InPhase, Invariant, status_apart, set_status-at, set_status-other,
}
use nelm.Plan.Execute.Scheduled.{rephase}
use mathlib.Core.Bool.{false≢true}

batch-unschedule :
    (i : String) (ops : Waiting) (batch : List String)
    → contains batch i ≡ false
    → All (λ k. Memᴰ (k, []) ops) batch
    → All (λ k. Memᴰ (k, []) (unschedule i ops)) batch
batch-unschedule i ops [] new all = tt
batch-unschedule i ops (k ∷ batch) new all =
    let other : (k == i) ≡ false = ground (arith, new) in
    let fresh : contains batch i ≡ false = ground (arith, new) in
    (unschedule-mem i ops (k, []) all.0 other, batch-unschedule i ops batch fresh all.1)

module _ (edge : String → String → Bool) (ops : Waiting) (s : System)
    (v : Invariant edge ops s) where
  module _ (i : String) (batch : List String) (ready : Memᴰ (i, []) s.waiting) where
    submitted : Awaits edge s (i, [])
    submitted = All-at (Awaits edge s) (i, []) s.waiting ready v.entries

    pending-back :
        (other : OperationStatus)
        → status_pending ≢ other
        → (j : String) → set_status i status_pending s.status j ≡ other
        → ((i == j) ≡ false) × (s.status j ≡ other)
    pending-back other differ j h = elim (Bool-cases (i == j)) [
      | inl e ↦ absurd (differ (sym (set_status-at i status_pending s.status j e) ∙ h))
      | inr e ↦ (e, sym (set_status-other i status_pending s.status j e) ∙ h)
    ]

    pending-keeps :
        (old : OperationStatus)
        → status_unknown ≢ old
        → (j : String) → s.status j ≡ old
        → set_status i status_pending s.status j ≡ old
    pending-keeps old differ j h =
        set_status-other i status_pending s.status j
          (status_apart s.status i j (λ same. differ (sym submitted.unstarted ∙ same ∙ h)))
        ∙ h

    submit-Awaits :
        (e : String × List String)
        → Awaits edge s e × ((e.0 == i) ≡ false)
        → Awaits edge (submit i batch s) e
    unfolding submit
    submit-Awaits e (w, other) = record {
      unstarted =
          set_status-other i status_pending s.status e.0 (text_ne_sym e.0 i other) ∙ w.unstarted;
      before = λ p h.
          ⊎_elim inl (λ c. inr (pending-keeps status_completed (λ d. cc) p c)) (w.before p h);
      edges = w.edges;
      unsent = λ p h c. w.unsent p h (pending-back status_completed (λ d. cc) p c).1;
    }

    -- A started operation has its predecessors completed.
    submit-order :
        (p j : String)
        → edge p j ≡ true
        → set_status i status_pending s.status j ≢ status_unknown
        → s.status p ≡ status_completed
    submit-order p j e h = elim (Bool-cases (i == j)) [
      | inl same ↦
          ⊎_elim (λ c. absurd (false≢true c)) (λ done. done)
            (submitted.before p (subst (λ k. edge p k ≡ true) (sym ((eq_iff i j).0 same)) e))
      | inr other ↦ v.order p j e (λ u. h (set_status-other i status_pending s.status j other ∙ u))
    ]

    pub submit-Invariant :
        InPhase ops (submitting (i ∷ batch)) s.waiting s.cancelled s.status
        → Invariant edge ops (submit i batch s)
    unfolding submit
    submit-Invariant (distinct, all, rest) = record {
      keys = unschedule-DistinctKeys i s.waiting v.keys;
      entries =
          All-map submit-Awaits (unschedule i s.waiting)
            (All-unschedule (Awaits edge s) i s.waiting v.entries);
      known = λ j m u.
          let (other, was) = pending-back status_unknown (λ d. cc) j u in
          rw (waits-unschedule i s.waiting j, v.known j m was, other) refl;
      pending = λ j h. elim (Bool-cases (i == j)) [
        | inl e ↦ set_status-at i status_pending s.status j e
        | inr e ↦ set_status-other i status_pending s.status j e ∙ v.pending j (rw e at h)
      ];
      busy = λ j h. elim (Bool-cases (i == j)) [
        | inl e ↦ rw e refl
        | inr e ↦ rw e (v.busy j (sym (set_status-other i status_pending s.status j e) ∙ h))
      ];
      completed = λ j h. pending-keeps status_completed (λ d. cc) j (v.completed j h);
      broken = λ j h. v.broken j (pending-back status_failed (λ d. cc) j h).1;
      order = λ p j e h. pending-keeps status_completed (λ d. cc) p (submit-order p j e h);
      phase_lem = (
        distinct.1,
        batch-unschedule i s.waiting batch distinct.0 all.1,
        All-map (λ e h. submit-rest e h) (unschedule i s.waiting)
            (All-unschedule (λ e. Blocked e.1 ⊎ (contains (i ∷ batch) e.0 ≡ true)) i s.waiting
              rest),
      );
    }
      where
        submit-rest :
            (e : String × List String)
            → (Blocked e.1 ⊎ (contains (i ∷ batch) e.0 ≡ true)) × ((e.0 == i) ≡ false)
            → Blocked e.1 ⊎ (contains batch e.0 ≡ true)
        submit-rest e (h, other) = ⊎_elim inl (λ c. inr (rw (text_ne_sym e.0 i other) at c)) h

  -- Without a cancellation, the end of the loop is the completion of every operation.
  all-completed :
      s.running ≡ []
      → s.waiting ≡ []
      → s.cancelled ≡ none
      → (i : String) → waits ops i ≡ true
      → (status : OperationStatus) → s.status i ≡ status
      → s.status i ≡ status_completed
  all-completed run wait intact i m status_unknown h =
      absurd (false≢true (sym (ap (λ w. waits w i) wait) ∙ v.known i m h))
  all-completed run wait intact i m status_pending h =
      absurd (false≢true (sym (ap (λ l. contains l i) run) ∙ v.busy i h))
  all-completed run wait intact i m status_completed h = h
  all-completed run wait intact i m status_failed h =
      let (cause, e) = v.broken i h in absurd (cc (intact, e))

  outcome-none :
      (failure cancelled : Option Err) → outcome failure cancelled ≡ ok tt → cancelled ≡ none
  unfolding outcome
  outcome-none (some e) cancelled h = cc
  outcome-none none (some cause) h = cc
  outcome-none none none h = refl

  outcome-InPhase :
      s.running ≡ []
      → InPhase ops finishing s.waiting s.cancelled s.status
      → InPhase ops (returned (outcome s.failure s.cancelled)) s.waiting s.cancelled s.status
  outcome-InPhase run h returns_nil i m =
      let intact = outcome-none s.failure s.cancelled returns_nil in
      ⊎_elim (λ c. absurd (cc (intact, c.1)))
        (λ wait. all-completed run wait intact i m (s.status i) refl) h

  pub finish-Invariant :
      (running sending : List String) (s' : System)
      → s.running ≡ running
      → finish running sending s ≡ some s'
      → InPhase ops finishing s.waiting s.cancelled s.status
      → Invariant edge ops s'
  unfolding finish
  finish-Invariant [] [] s' run h phase =
      subst (Invariant edge ops) (some-injective h)
        (rephase edge ops s v _ (outcome-InPhase run phase))
  finish-Invariant [] (i ∷ sending) s' run h phase = cc
  finish-Invariant (i ∷ running) [] s' run h phase = cc
  finish-Invariant (i ∷ running) (j ∷ sending) s' run h phase = cc
