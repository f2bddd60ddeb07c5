-- ===== src/Plan/Chain/Steps.antt =====
-- Do (pkg/plan/plan.go): what one step and a whole chain make of the graph.
use nelm.Base.{
  Bool, true, false, Option, none, some, List, [], ◌∷◌, ◌≡◌, refl, sym, ◌∙◌, subst, ◌==◌, ◌&&◌, not,
  inl, inr, ok, All, arith, eq_iff, >>=-eq-ok, wrap_err-eq-ok, ok-injective, some-injective,
  Bool-cases, Option-cases,
}
use nelm.Common.{stage_start_suffix, stage_end_suffix}
use nelm.Plan.Operation.{Operation, id}
use nelm.Plan.Graph.{GraphLib, IsGraphLib, AddsVertex, Has}
use nelm.Plan.Chain.{
  BuilderStep, is_already_exists, operations, stage_op, add_step_vertex, connect_stage,
  connect_added, connect_prev, do_step, do_steps, do_chain,
}
use nelm.Plan.Chain.Placement.{
  InGraph, stage_start, stage_end, IsNamed, Extends, Extends-refl, Extends-trans, Connects,
  Connects-refl, Connects-trans, Connects-Extends, NamesNoops, Connects-NamesNoops, Placed, Follows,
  Chained, Placed-mono, Follows-mono,
}
use nelm.Plan.Chain.Connect.{connect-Connects, operations_of-InGraph, stage_op-id}

module _ (lib : GraphLib) (laws : IsGraphLib lib) where
  open lib use {Graph, vertex, edge, add_vertex, add_edge}

  module _ {g g' : Graph} (op : Operation) (fresh : vertex g (id op) ≡ none)
      (adds : AddsVertex lib op g g') where
    AddsVertex-Extends : Extends lib g g'
    AddsVertex-Extends = record {
      vertices = λ i o e. adds.vertices i ∙ ground (arith, eq_iff (id op) i);
      edges = λ i j e. adds.edges i j ∙ e;
    }

    AddsVertex-present : vertex g' (id op) ≡ some op
    AddsVertex-present = adds.vertices (id op) ∙ ground (arith, eq_iff (id op) (id op))

    AddsVertex-NamesNoops : NamesNoops lib g → IsNamed op → NamesNoops lib g'
    AddsVertex-NamesNoops named own i o e = elim (Bool-cases (id op == i)) [
      | inl same ↦ subst IsNamed (some-injective (rw same at (sym (adds.vertices i) ∙ e))) own
      | inr other ↦ named i o (rw other at (sym (adds.vertices i) ∙ e))
    ]

  -- What one step adds before it is connected.
  record Added (step : BuilderStep) (g : Graph) (added : Graph × Bool) : Type 0 where
    extends : Extends lib g added.0
    present : Has (vertex added.0 (id step.operation))
    names : NamesNoops lib g → IsNamed step.operation → NamesNoops lib added.0
    new : step.skip_on_duplicate ≡ false → added.1 ≡ true

  module _ (g : Graph) (step : BuilderStep) (added : Graph × Bool) where
    fresh-Added :
        vertex g (id step.operation) ≡ none
        → add_step_vertex lib g step (add_vertex g step.operation) ≡ ok added
        → Added step g added
    unfolding add_step_vertex
    fresh-Added e h =
        let (g₁, done, adds) = laws.add_vertex_fresh g step.operation e in
        subst (Added step g) (ok-injective (rw done at h)) (record {
          extends = AddsVertex-Extends step.operation e adds;
          present = (step.operation, AddsVertex-present step.operation e adds);
          names = AddsVertex-NamesNoops step.operation e adds;
          new = λ _. refl;
        })

    taken-Added :
        Has (vertex g (id step.operation))
        → add_step_vertex lib g step (add_vertex g step.operation) ≡ ok added
        → Added step g added
    unfolding add_step_vertex is_already_exists
    taken-Added e h = elim (Bool-cases step.skip_on_duplicate) [
      | inl s ↦
          subst (Added step g)
            (ok-injective (rw s at (rw (laws.add_vertex_taken g step.operation e) at h)))
            (record {
              extends = Extends-refl lib g;
              present = e;
              names = λ named _. named;
              new = λ n. cc;
            })
      | inr s ↦ absurd (cc (rw s at (rw (laws.add_vertex_taken g step.operation e) at h)))
    ]

    add_step_vertex-Added :
        add_step_vertex lib g step (add_vertex g step.operation) ≡ ok added → Added step g added
    add_step_vertex-Added h = elim (Option-cases (vertex g (id step.operation))) [
      | inl e ↦ fresh-Added e h
      | inr e ↦ taken-Added e h
    ]

  -- The connections of a step keep the graph and leave the edges with the ends of the stage.
  connect_stage-Connects :
      (g : Graph) (ops : List Operation) (step : BuilderStep) {g' : Graph}
      → All (InGraph lib g) ops
      → NamesNoops lib g
      → connect_stage lib g ops step ≡ ok g'
      → Connects lib g g'
        × (edge g' (stage_start step.stage) (id step.operation) ≡ true)
        × (edge g' (id step.operation) (stage_end step.stage) ≡ true)
  unfolding connect_stage
  connect_stage-Connects g ops step all named h =
      let (o₁, e₁, h₁) = >>=-eq-ok (stage_op lib ops step.stage stage_start_suffix) _ h in
      let (g₁, e₂, h₂) = >>=-eq-ok _ _ h₁ in
      let (o₂, e₃, h₃) = >>=-eq-ok (stage_op lib ops step.stage stage_end_suffix) _ h₂ in
      let (x₁, y₁) = connect-Connects lib laws g _ _ (wrap_err-eq-ok _ _ e₂) in
      let (x₂, y₂) = connect-Connects lib laws g₁ _ _ (wrap_err-eq-ok _ _ h₃) in
      let n₁ = stage_op-id lib laws g ops step.stage stage_start_suffix o₁ all named e₁ in
      let n₂ = stage_op-id lib laws g ops step.stage stage_end_suffix o₂ all named e₃ in
      (Connects-trans lib x₁ x₂, x₂.edges _ _ (rw n₁ at y₁), rw n₂ at y₂)

  connect_prev-Connects :
      (g : Graph) (prev : Option BuilderStep) (step : BuilderStep) {g' : Graph}
      → connect_prev lib g prev step ≡ ok g'
      → Connects lib g g' × Follows lib g' prev step
  unfolding connect_prev
  connect_prev-Connects g none step h =
      (subst (Connects lib g) (ok-injective h) (Connects-refl lib g), tt)
  connect_prev-Connects g (some prev) step h =
      connect-Connects lib laws g _ _ (wrap_err-eq-ok _ _ h)

  connect_added-Connects :
      (added : Graph × Bool) (ops : List Operation) (step : BuilderStep) {g' : Graph}
      → All (InGraph lib added.0) ops
      → NamesNoops lib added.0
      → connect_added lib added ops step ≡ ok g'
      → Connects lib added.0 g'
        × ((step.stage == "") ≡ false
            → added.1 ≡ true
            → (edge g' (stage_start step.stage) (id step.operation) ≡ true)
              × (edge g' (id step.operation) (stage_end step.stage) ≡ true))
  unfolding connect_added
  connect_added-Connects added ops step {g' = g'} all named h =
      elim (Bool-cases (not (step.stage == "") && added.1)) [
        | inl e ↦
            let done = connect_stage-Connects added.0 ops step all named (rw e at h) in
            (done.0, λ _ _. (done.1, done.2))
        | inr e ↦ (
          subst (Connects lib added.0) (ok-injective (rw e at h)) (Connects-refl lib added.0),
          λ s n. absurd (ground (arith, e, s, n)),
        )
      ]

  -- The operation is placed, behind the operation of the previous step.
  do_step-Placed :
      (g : Graph) (prev : Option BuilderStep) (step : BuilderStep) {g' : Graph}
      → NamesNoops lib g
      → IsNamed step.operation
      → do_step lib g prev step ≡ ok g'
      → Extends lib g g' × NamesNoops lib g' × Placed lib g' step × Follows lib g' prev step
  unfolding do_step operations
  do_step-Placed g prev step {g' = g'} named own h =
      let (added, e₁, h₁) =
        >>=-eq-ok (add_step_vertex lib g step (add_vertex g step.operation)) _ h in
      let (ops, e₂, h₂) = >>=-eq-ok (operations lib added.0) _ h₁ in
      let (g₂, e₃, h₃) = >>=-eq-ok (connect_added lib added ops step) _ h₂ in
      let a = add_step_vertex-Added g step added e₁ in
      let names = a.names named own in
      let all = operations_of-InGraph lib laws added.0 (lib.keys added.0) ops e₂ in
      let (c₁, staged) = connect_added-Connects added ops step all names e₃ in
      let (c₂, follows) = connect_prev-Connects g₂ prev step h₃ in
      let c = Connects-trans lib c₁ c₂ in
      (
        Extends-trans lib a.extends (Connects-Extends lib c),
        Connects-NamesNoops lib c names,
        record {
          present = (a.present.0, c.vertices _ ∙ a.present.1);
          staged = λ s t. let (x, y) = staged t (a.new s) in (c₂.edges _ _ x, c₂.edges _ _ y);
        },
        follows,
      )

  -- A chain that was added without an error: the graph keeps what it had, every operation stands
  -- between the ends of its stage, and the operations follow one another in the chain's order.
  do_steps-Chained :
      (g : Graph) (prev : Option BuilderStep) (steps : List BuilderStep) (g' : Graph)
      → NamesNoops lib g
      → All (λ s. IsNamed s.operation) steps
      → do_steps lib g prev steps ≡ ok g'
      → Extends lib g g' × NamesNoops lib g' × Chained lib g' prev steps
  unfolding do_steps
  do_steps-Chained g prev [] g' named own h =
      subst (λ k. Extends lib g k × NamesNoops lib k × Unit) (ok-injective h)
        (Extends-refl lib g, named, tt)
  do_steps-Chained g prev (step ∷ steps) g' named own h =
      let (g₁, e, rest) = >>=-eq-ok (do_step lib g prev step) _ h in
      let (x₁, names, placed, follows) = do_step-Placed g prev step named own.0 e in
      let (x₂, names', chained) = do_steps-Chained g₁ (some step) steps g' names own.1 rest in
      (
        Extends-trans lib x₁ x₂,
        names',
        (Placed-mono lib x₂ placed, Follows-mono lib prev step x₂ follows, chained),
      )

  pub do_chain-Chained :
      (g : Graph) (steps : List BuilderStep) (g' : Graph)
      → NamesNoops lib g
      → All (λ s. IsNamed s.operation) steps
      → do_chain lib g steps ≡ ok g'
      → Extends lib g g' × NamesNoops lib g' × Chained lib g' none steps
  unfolding do_chain
  do_chain-Chained g steps g' named own h = do_steps-Chained g none steps g' named own h
