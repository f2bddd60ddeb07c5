-- ===== src/Plan/Execute/Scheduled.antt =====
-- The steps of the scheduler (pkg/plan/plan_execute.go, ExecutePlan) keep the invariant.
use mathlib.Core.Logic.{⊎_elim}
use nelm.Base.{
  String, Bool, true, false, Option, none, some, List, [], ◌∷◌, ◌≡◌, refl, ◌∙◌, ◌==◌, ◌||◌, inl,
  inr, Err, contains, All-map, arith, Bool-cases,
}
use nelm.Plan.Execute.{
  Waiting, Phase, looping, draining, submitting, System, remove, find_executable_ops_ids,
  enter_loop, drain, DistinctKeys,
}
use nelm.Plan.Execute.Membership.{remove-other, remove-keeps}
use nelm.Plan.Execute.Executable.{
  forget-waits, forget-DistinctKeys, All-forget, find-Distinct, find-ready, find-rest,
}
use nelm.Plan.Execute.Invariant.{Sent, Awaits, InPhase, Invariant}

module _ (edge : String → String → Bool) (ops : Waiting) (s : System)
    (v : Invariant edge ops s) where
  -- A step to another phase.
  pub rephase :
      (phase : Phase)
      → InPhase ops phase s.waiting s.cancelled s.status
      → Invariant edge ops (record s { phase = phase })
  rephase phase h = record {
    keys = v.keys;
    entries =
        All-map
          (λ e w. record {
            unstarted = w.unstarted;
            before = w.before;
            edges = w.edges;
            unsent = w.unsent;
          })
          s.waiting v.entries;
    known = v.known;
    pending = v.pending;
    busy = v.busy;
    completed = v.completed;
    broken = v.broken;
    order = v.order;
    phase_lem = h;
  }

  executable-InPhase :
      (waiting : Waiting)
      → DistinctKeys waiting
      → InPhase ops (submitting (find_executable_ops_ids waiting)) waiting s.cancelled s.status
  executable-InPhase waiting keys =
      (find-Distinct waiting keys, find-ready waiting, find-rest waiting)

  pub enter_loop-InPhase :
      (again : Bool) (waiting : Waiting) (cancelled : Option Err)
      → DistinctKeys waiting
      → InPhase ops (looping again) waiting cancelled s.status
      → InPhase ops (enter_loop again waiting cancelled) waiting cancelled s.status
  unfolding enter_loop
  enter_loop-InPhase again [] cancelled keys h = inr refl
  enter_loop-InPhase false (e ∷ waiting) cancelled keys h = executable-InPhase (e ∷ waiting) keys
  enter_loop-InPhase true (e ∷ waiting) (some cause) keys h = inl (cause, refl)
  enter_loop-InPhase true (e ∷ waiting) none keys h = (ground (arith), h)

  -- The receive of one identifier.
  receive-Sent :
      (i : String) (channel : List String)
      → s.channel ≡ i ∷ channel
      → (j : String) → (i == j) ≡ false
      → Sent s j
      → (contains s.sending j || contains channel j) ≡ true
  receive-Sent i channel at j e h = let old = rw (at, e) at h in old

  Sent-receive :
      (i : String) (channel : List String)
      → s.channel ≡ i ∷ channel
      → (j : String) → (contains s.sending j || contains channel j) ≡ true
      → Sent s j
  Sent-receive i channel at j h = rw at (ground (arith, h))

  receive-Awaits :
      (i : String) (channel : List String)
      → s.channel ≡ i ∷ channel
      → (e : String × List String) → Awaits edge s e
      → Awaits edge (drain true (i ∷ channel) s) (e.0, remove i e.1)
  unfolding drain
  receive-Awaits i channel at e w = record {
    unstarted = w.unstarted;
    before = λ p h. elim (Bool-cases (i == p)) [
      | inl same ↦ inr (v.completed p (rw (at, same) (ground (arith))))
      | inr other ↦ ⊎_elim (λ c. inl (remove-keeps i e.1 p other c)) inr (w.before p h)
    ];
    edges = λ p h. w.edges p (remove-other i e.1 p h).1;
    unsent = λ p h c.
        let (other, was) = remove-other i e.1 p h in
        receive-Sent i channel at p other (w.unsent p was c);
  }

  pub drain-Invariant :
      (got : Bool) (channel : List String)
      → s.channel ≡ channel
      → InPhase ops (draining got) s.waiting s.cancelled s.status
      → Invariant edge ops (drain got channel s)
  unfolding drain
  drain-Invariant true [] at h = rephase _ (executable-InPhase s.waiting v.keys)
  drain-Invariant false [] at h = rephase _ h.1
  drain-Invariant got (i ∷ channel) at h = record {
    keys = forget-DistinctKeys i s.waiting v.keys;
    entries =
        All-forget (Awaits edge s) (Awaits edge (drain true (i ∷ channel) s)) i
          (receive-Awaits i channel at) s.waiting v.entries;
    known = λ j m u. forget-waits i s.waiting j ∙ v.known j m u;
    pending = v.pending;
    busy = v.busy;
    completed = λ j sent. v.completed j (Sent-receive i channel at j sent);
    broken = v.broken;
    order = v.order;
    phase_lem = tt;
  }
