-- ===== src/Plan/Execute/Invariant.antt =====
-- What holds of the state of an execution (pkg/plan/plan_execute.go) at every step.
use nelm.Base.{
  String, ◌<◌, Bool, true, false, Option, some, List, [], Memᴰ, ◌≡◌, ◌≢◌, refl, ap, sym, ◌∙◌, ◌==◌,
  ◌||◌, ◌⊎◌, inl, inr, ok, Err, contains, All, All-map, length, eq_iff, Bool-cases,
}
use nelm.Plan.Operation.{
  OperationStatus, status_unknown, status_pending, status_completed, status_failed,
}
use nelm.Plan.Execute.{
  Waiting, Phase, looping, draining, submitting, finishing, returned, System, set_status,
  initial_system, waits, DistinctKeys, IsPredecessorMap,
}
use nelm.Plan.Execute.Membership.{Blocked, Distinct}
use mathlib.Core.Bool.{false≢true}

-- The operation's identifier is on its way to the scheduler.
abbrev pub Sent : System → String → Type 0
Sent s i = (contains s.sending i || contains s.channel i) ≡ true

module _ (edge : String → String → Bool) where
  -- An operation of the map with those that it waits for: it is not started, its other predecessors
  -- are completed, and what it waits for may have completed only just now.
  pub record Awaits (s : System) (e : String × List String) : Type 0 where
    pub unstarted : s.status e.0 ≡ status_unknown
    pub before :
        (p : String) → edge p e.0 ≡ true → (contains e.1 p ≡ true) ⊎ (s.status p ≡ status_completed)
    pub edges : (p : String) → contains e.1 p ≡ true → edge p e.0 ≡ true
    pub unsent : (p : String) → contains e.1 p ≡ true → s.status p ≡ status_completed → Sent s p

module _ (ops : Waiting) where
  -- What is known at a point of ExecutePlan.
  abbrev pub InPhase : Phase → Waiting → Option Err → (String → OperationStatus) → Type 0
  InPhase (looping false) waiting cancelled status = Unit
  InPhase (looping true) waiting cancelled status = All (λ e. Blocked e.1) waiting
  InPhase (draining false) waiting cancelled status =
      (0 < length waiting) × All (λ e. Blocked e.1) waiting
  InPhase (draining true) waiting cancelled status = Unit
  InPhase (submitting batch) waiting cancelled status =
      Distinct batch
      × All (λ i. Memᴰ (i, []) waiting) batch
      × All (λ e. Blocked e.1 ⊎ (contains batch e.0 ≡ true)) waiting
  InPhase finishing waiting cancelled status =
      ((cause : Err) × (cancelled ≡ some cause)) ⊎ (waiting ≡ [])
  InPhase (returned r) waiting cancelled status =
      r ≡ ok tt → (i : String) → waits ops i ≡ true → status i ≡ status_completed

module _ (edge : String → String → Bool) (ops : Waiting) where
  pub record Invariant (s : System) : Type 0 where
    pub keys : DistinctKeys s.waiting
    pub entries : All (Awaits edge s) s.waiting
    pub known :
        (i : String) → waits ops i ≡ true → s.status i ≡ status_unknown → waits s.waiting i ≡ true
    pub pending : (i : String) → contains s.running i ≡ true → s.status i ≡ status_pending
    pub busy : (i : String) → s.status i ≡ status_pending → contains s.running i ≡ true
    pub completed : (i : String) → Sent s i → s.status i ≡ status_completed
    pub broken :
        (i : String) → s.status i ≡ status_failed → (cause : Err) × (s.cancelled ≡ some cause)
    pub order :
        (p i : String)
        → edge p i ≡ true
        → s.status i ≢ status_unknown
        → s.status p ≡ status_completed
    pub phase_lem : InPhase ops s.phase s.waiting s.cancelled s.status

-- Operations of different statuses are different.
pub status_apart :
    (status : String → OperationStatus) (i j : String) → status i ≢ status j → (i == j) ≡ false
status_apart status i j differ = elim (Bool-cases (i == j)) [
  | inl e ↦ absurd (differ (ap status ((eq_iff i j).0 e)))
  | inr e ↦ e
]

pub set_status-at :
    (i : String) (new : OperationStatus) (status : String → OperationStatus) (j : String)
    → (i == j) ≡ true
    → set_status i new status j ≡ new
unfolding set_status
set_status-at i new status j e = rw e refl

pub set_status-other :
    (i : String) (new : OperationStatus) (status : String → OperationStatus) (j : String)
    → (i == j) ≡ false
    → set_status i new status j ≡ status j
unfolding set_status
set_status-other i new status j e = rw e refl

-- The start of an execution.
pub initial_system-Invariant :
    (edge : String → String → Bool) (ops : Waiting)
    → IsPredecessorMap edge ops
    → Invariant edge ops (initial_system ops)
unfolding initial_system
initial_system-Invariant edge ops m = record {
  keys = m.keys;
  entries =
      All-map
        (λ e same. record {
          unstarted = refl;
          before = λ p h. inl (same p ∙ h);
          edges = λ p h. sym (same p) ∙ h;
          unsent = λ p h done. cc;
        })
        ops m.edges;
  known = λ i h unknown. h;
  pending = λ i h. absurd (false≢true h);
  busy = λ i h. cc;
  completed = λ i h. absurd (false≢true h);
  broken = λ i h. cc;
  order = λ p i e started. absurd (started refl);
  phase_lem = tt;
}
