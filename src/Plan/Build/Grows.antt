-- ===== src/Plan/Build/Grows.antt =====
-- Growth of the graph by a chain of operations (pkg/plan/plan.go, Do).
use nelm.Base.{
  Bool, true, false, none, [], ◌∷◌, ◌≡◌, subst, Result, ok, if◌then◌else◌, All, ok-injective,
}
use nelm.Common.{Stage}
use nelm.Plan.Operation.{Operation}
use nelm.Plan.Graph.{GraphLib, IsGraphLib}
use nelm.Plan.Chain.{ChainBuilder, do_chain}
use nelm.Plan.Build.{do_single}
use nelm.Plan.Chain.Builder.{staged_step, in_stage-add_operation}
use mathlib.Core.Bool.{false≢true}
use nelm.Plan.Chain.Placement.{
  IsNamed, Extends, Extends-refl, Extends-trans, Connects, Connects-Extends, NamesNoops,
  Connects-NamesNoops, Placed, Chained,
}
use nelm.Plan.Chain.Steps.{do_chain-Chained}

module _ (lib : GraphLib) where
  open lib use {Graph}

  pub record Grows (g g' : Graph) : Type 0 where
    pub extends : Extends lib g g'
    pub names : NamesNoops lib g → NamesNoops lib g'

  pub Grows-refl : (g : Graph) → Grows g g
  Grows-refl g = record { extends = Extends-refl lib g; names = λ n. n }

  pub Grows-trans : {g g' g'' : Graph} → Grows g g' → Grows g' g'' → Grows g g''
  Grows-trans p q = record {
    extends = Extends-trans lib p.extends q.extends;
    names = λ n. q.names (p.names n);
  }

  pub Connects-Grows : {g g' : Graph} → Connects lib g g' → Grows g g'
  Connects-Grows c = record { extends = Connects-Extends lib c; names = Connects-NamesNoops lib c }

  -- A chain whose operations are named grows the graph, and stands in it.
  pub do_chain-Grows :
      IsGraphLib lib
      → (g : Graph) (steps : ChainBuilder) (g' : Graph) → NamesNoops lib g
      → All (λ s. IsNamed s.operation) steps
      → do_chain lib g steps ≡ ok g'
      → Grows g g' × Chained lib g' none steps
  do_chain-Grows laws g steps g' named own h =
      let (x, names, chained) = do_chain-Chained lib laws g steps g' named own h in
      (record { extends = x; names = λ _. names }, chained)

  -- Of a single operation in a stage.
  pub do_single-Grows :
      IsGraphLib lib
      → (g : Graph) (op : Operation) (stage : Stage) (g' : Graph) → NamesNoops lib g
      → IsNamed op
      → do_single lib g op stage ≡ ok g'
      → Grows g g' × Placed lib g' (staged_step op stage)
  unfolding do_single
  do_single-Grows laws g op stage g' named own h =
      let done =
        do_chain-Grows laws g (staged_step op stage ∷ []) g' named (own, tt)
          (rw (in_stage-add_operation [] op stage) at h) in
      (done.0, done.1.0)

  -- A part that is left out under a test.
  pub if-Grows {κ} :
      {C : Type κ} (b : Bool) (m : Result Graph) (g g' : Graph)
      → (m ≡ ok g' → Grows g g' × C)
      → (if b then m else ok g) ≡ ok g'
      → Grows g g' × (b ≡ true → C)
  if-Grows true m g g' part h = let (x, c) = part h in (x, λ _. c)
  if-Grows false m g g' part h =
      (subst (Grows g) (ok-injective h) (Grows-refl g), λ e. absurd (false≢true e))
