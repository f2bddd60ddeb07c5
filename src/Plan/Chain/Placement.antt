-- ===== src/Plan/Chain/Placement.antt =====
-- What it means that a chain of operations stands in a graph (pkg/plan/plan.go, Do).
use nelm.Base.{String, true, false, Option, none, some, List, [], ◌∷◌, ◌≡◌, refl, sym, ◌∙◌, ◌==◌}
use nelm.Common.{Stage, stage_start_suffix, stage_end_suffix}
use nelm.Plan.Operation.{type_noop, noop, Operation, operation_id, id}
use nelm.Plan.Graph.{GraphLib, Has}
use nelm.Plan.Chain.{BuilderStep, stage_op_id}

-- The identifier of the noop with this OpID, which all builders make with version 1.
abbrev pub noop_id : String → String
noop_id op_id = operation_id type_noop 1 0 op_id

abbrev pub stage_start : Stage → String
stage_start stage = noop_id (stage_op_id stage stage_start_suffix)

abbrev pub stage_end : Stage → String
stage_end stage = noop_id (stage_op_id stage stage_end_suffix)

abbrev pub IsNamed : Operation → Type 0
IsNamed op = (op_id : String) → op.config ≡ noop op_id → id op ≡ noop_id op_id

module _ (lib : GraphLib) where
  open lib use {Graph, vertex, edge}

  -- The operation stands in the graph under its own identifier.
  abbrev pub InGraph : Graph → Operation → Type 0
  InGraph g op = vertex g (id op) ≡ some op

  pub record Extends (g g' : Graph) : Type 0 where
    pub vertices : (i : String) (op : Operation) → vertex g i ≡ some op → vertex g' i ≡ some op
    pub edges : (i j : String) → edge g i j ≡ true → edge g' i j ≡ true

  pub Extends-refl : (g : Graph) → Extends g g
  Extends-refl g = record { vertices = λ i op h. h; edges = λ i j h. h }

  pub Extends-trans : {g g' g'' : Graph} → Extends g g' → Extends g' g'' → Extends g g''
  Extends-trans p q = record {
    vertices = λ i op h. q.vertices i op (p.vertices i op h);
    edges = λ i j h. q.edges i j (p.edges i j h);
  }

  -- The same vertices, and no edge lost.
  pub record Connects (g g' : Graph) : Type 0 where
    pub vertices : (i : String) → vertex g' i ≡ vertex g i
    pub edges : (i j : String) → edge g i j ≡ true → edge g' i j ≡ true

  pub Connects-refl : (g : Graph) → Connects g g
  Connects-refl g = record { vertices = λ i. refl; edges = λ i j h. h }

  pub Connects-trans : {g g' g'' : Graph} → Connects g g' → Connects g' g'' → Connects g g''
  Connects-trans p q = record {
    vertices = λ i. q.vertices i ∙ p.vertices i;
    edges = λ i j h. q.edges i j (p.edges i j h);
  }

  pub Connects-Extends : {g g' : Graph} → Connects g g' → Extends g g'
  Connects-Extends p = record { vertices = λ i op h. p.vertices i ∙ h; edges = p.edges }

  -- Every noop of the graph has the identifier that its OpID determines.
  abbrev pub NamesNoops : Graph → Type 0
  NamesNoops g = (i : String) (op : Operation) → vertex g i ≡ some op → IsNamed op

  pub Connects-NamesNoops : {g g' : Graph} → Connects g g' → NamesNoops g → NamesNoops g'
  Connects-NamesNoops p named i op h = named i op (sym (p.vertices i) ∙ h)

  -- The operation is in the graph, and between the ends of its stage unless it may be a duplicate.
  pub record Placed (g : Graph) (step : BuilderStep) : Type 0 where
    pub present : Has (vertex g (id step.operation))
    pub staged :
        step.skip_on_duplicate ≡ false
        → (step.stage == "") ≡ false
        → (edge g (stage_start step.stage) (id step.operation) ≡ true)
          × (edge g (id step.operation) (stage_end step.stage) ≡ true)

  abbrev pub Follows : Graph → Option BuilderStep → BuilderStep → Type 0
  Follows g none step = Unit
  Follows g (some prev) step = edge g (id prev.operation) (id step.operation) ≡ true

  abbrev pub Chained : Graph → Option BuilderStep → List BuilderStep → Type 0
  Chained g prev [] = Unit
  Chained g prev (step ∷ steps) = Placed g step × Follows g prev step × Chained g (some step) steps

  pub Placed-mono :
      {g g' : Graph} {step : BuilderStep} → Extends g g' → Placed g step → Placed g' step
  Placed-mono e p = record {
    present = (p.present.0, e.vertices _ _ p.present.1);
    staged = λ s t. (e.edges _ _ (p.staged s t).0, e.edges _ _ (p.staged s t).1);
  }

  pub Follows-mono :
      {g g' : Graph} (prev : Option BuilderStep) (step : BuilderStep)
      → Extends g g'
      → Follows g prev step
      → Follows g' prev step
  Follows-mono none step e f = tt
  Follows-mono (some prev) step e f = e.edges _ _ f

  pub Chained-mono :
      {g g' : Graph} (prev : Option BuilderStep) (steps : List BuilderStep)
      → Extends g g'
      → Chained g prev steps
      → Chained g' prev steps
  Chained-mono prev [] e c = tt
  Chained-mono prev (step ∷ steps) e c =
      (Placed-mono e c.0, Follows-mono prev step e c.1, Chained-mono (some step) steps e c.2)
