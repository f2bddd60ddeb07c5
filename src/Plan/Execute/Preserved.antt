-- ===== src/Plan/Execute/Preserved.antt =====
-- The steps of the workers (pkg/plan/plan_execute.go, execOperation) keep the invariant.
use mathlib.Core.Logic.{⊎_elim}
use nelm.Base.{
  String, Bool, true, false, Option, some, List, ◌≡◌, ◌≢◌, sym, ◌∙◌, subst, ◌==◌, inl, inr, Err,
  contains, All, All-map, Bool-cases,
}
use nelm.Plan.Operation.{
  OperationStatus, status_unknown, status_pending, status_completed, status_failed,
}
use nelm.Plan.Execute.{
  Waiting, Phase, looping, draining, submitting, finishing, returned, System, remove, set_status,
  waits, DistinctKeys,
}
use nelm.Plan.Execute.Membership.{remove-other}
use nelm.Plan.Execute.Invariant.{
  Sent, Awaits, InPhase, Invariant, status_apart, set_status-at, set_status-other,
}

InPhase-mono :
    (ops : Waiting) (phase : Phase) (waiting : Waiting) {cancelled cancelled' : Option Err}
    {status status' : String → OperationStatus}
    → ((cause : Err) → cancelled ≡ some cause → (c : Err) × (cancelled' ≡ some c))
    → ((i : String) → status i ≡ status_completed → status' i ≡ status_completed)
    → InPhase ops phase waiting cancelled status
    → InPhase ops phase waiting cancelled' status'
InPhase-mono ops (looping false) waiting stays done h = tt
InPhase-mono ops (looping true) waiting stays done h = h
InPhase-mono ops (draining false) waiting stays done h = h
InPhase-mono ops (draining true) waiting stays done h = tt
InPhase-mono ops (submitting batch) waiting stays done h = h
InPhase-mono ops finishing waiting stays done h =
    ⊎_elim (λ c. inl (stays c.0 c.1)) (λ empty. inr empty) h
InPhase-mono ops (returned r) waiting stays done h = λ e i m. done i (h e i m)

-- A step that leaves the map and the phase alone and starts nothing.
pub record Advances (s s' : System) : Type 0 where
  pub phases : s'.phase ≡ s.phase
  pub waits_same : s'.waiting ≡ s.waiting
  pub unstarted : (i : String) → s.status i ≡ status_unknown → s'.status i ≡ status_unknown
  pub started : (i : String) → s'.status i ≡ status_unknown → s.status i ≡ status_unknown
  pub done : (i : String) → s.status i ≡ status_completed → s'.status i ≡ status_completed
  pub stays : (cause : Err) → s.cancelled ≡ some cause → (c : Err) × (s'.cancelled ≡ some c)
  pub sent :
      (i : String)
      → s'.status i ≡ status_completed
      → (s.status i ≡ status_completed → Sent s i)
      → Sent s' i

Advances-Awaits :
    (edge : String → String → Bool) (s s' : System)
    → Advances s s'
    → (e : String × List String) → Awaits edge s e
    → Awaits edge s' e
Advances-Awaits edge s s' a e w = record {
  unstarted = a.unstarted e.0 w.unstarted;
  before = λ p h. ⊎_elim inl (λ c. inr (a.done p c)) (w.before p h);
  edges = w.edges;
  unsent = λ p h c. a.sent p c (w.unsent p h);
}

-- The rest of the invariant, which is about the workers' own lists.
pub record Working (s' : System) : Type 0 where
  pub pending : (i : String) → contains s'.running i ≡ true → s'.status i ≡ status_pending
  pub busy : (i : String) → s'.status i ≡ status_pending → contains s'.running i ≡ true
  pub completed : (i : String) → Sent s' i → s'.status i ≡ status_completed
  pub broken :
      (i : String) → s'.status i ≡ status_failed → (cause : Err) × (s'.cancelled ≡ some cause)

pub Advances-Invariant :
    (edge : String → String → Bool) (ops : Waiting) (s s' : System)
    → Advances s s'
    → Working s'
    → Invariant edge ops s
    → Invariant edge ops s'
Advances-Invariant edge ops s s' a w v = record {
  keys = subst DistinctKeys (sym a.waits_same) v.keys;
  entries =
      subst (All (Awaits edge s')) (sym a.waits_same)
        (All-map (Advances-Awaits edge s s' a) s.waiting v.entries);
  known = λ i h u. subst (λ m. waits m i ≡ true) (sym a.waits_same) (v.known i h (a.started i u));
  pending = w.pending;
  busy = w.busy;
  completed = w.completed;
  broken = w.broken;
  order = λ p i e h. a.done p (v.order p i e (λ u. h (a.unstarted i u)));
  phase_lem =
      subst (λ m. InPhase ops s'.phase m s'.cancelled s'.status) (sym a.waits_same)
        (subst (λ phase. InPhase ops phase s.waiting s'.cancelled s'.status) (sym a.phases)
          (InPhase-mono ops s.phase s.waiting a.stays a.done v.phase_lem));
}

-- What a change of one operation's status from pending changes.
module _ (i : String) (new : OperationStatus) (s : System) (at : s.status i ≡ status_pending) where
  pub set-stays :
      (old : OperationStatus)
      → status_pending ≢ old
      → (j : String) → s.status j ≡ old
      → set_status i new s.status j ≡ old
  set-stays old differ j h =
      set_status-other i new s.status j
        (status_apart s.status i j (λ same. differ (sym at ∙ same ∙ h)))
      ∙ h

  pub set-other :
      (other : OperationStatus)
      → new ≢ other
      → (j : String) → set_status i new s.status j ≡ other
      → ((i == j) ≡ false) × (s.status j ≡ other)
  set-other other differ j h = elim (Bool-cases (i == j)) [
    | inl e ↦ absurd (differ (sym (set_status-at i new s.status j e) ∙ h))
    | inr e ↦ (e, sym (set_status-other i new s.status j e) ∙ h)
  ]

  pub set-running :
      (j : String)
      → contains (remove i s.running) j ≡ true
      → ((j : String) → contains s.running j ≡ true → s.status j ≡ status_pending)
      → set_status i new s.status j ≡ status_pending
  set-running j h pending =
      let (other, was) = remove-other i s.running j h in
      set_status-other i new s.status j other ∙ pending j was
