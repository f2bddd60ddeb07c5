-- ===== src/Plan/Build/Stages/Main.antt =====
-- addMainStages (pkg/plan/plan_build.go): its effect on the graph.
use mathlib.Core.List.Memᴰ
use mathlib.Core.List.Memᴰ
use mathlib.Core.List.Memᴰ
use nelm.Base.{
  String, true, Option, none, some, List, [], ◌∷◌, ◌++◌, Memᴰ, ◌≡◌, ap, sym, ◌∙◌, subst, inl, inr,
  ok, All, wrap_err-eq-ok,
}
use nelm.Common.{Stage, stages_ordered, stage_start_suffix, stage_end_suffix}
use nelm.Common.Order.{Before}
use nelm.Plan.Operation.{Operation, id}
use nelm.Plan.Graph.{GraphLib, IsGraphLib}
use nelm.Plan.Graph.Paths.{Reaches, here, next, Reaches-trans, Reaches-mono}
use nelm.Plan.Chain.{BuilderStep, ChainBuilder, add_operation, stage_op_id, do_chain}
use nelm.Plan.Build.{noop_operation}
use nelm.Plan.Build.Stages.{add_ends, add_main_stages}
use nelm.Plan.Chain.Builder.{staged_step}
use nelm.Plan.Build.Named.{noop_operation-IsNamed, id-noop_operation}
use mathlib.Core.List.{append-nil, append_assoc}
use nelm.Plan.Build.Grows.{Grows, do_chain-Grows}
use nelm.Plan.Chain.Placement.{stage_start, stage_end, IsNamed, Extends, NamesNoops, Chained}

abbrev plain : Operation → BuilderStep
plain op = staged_step op ""

abbrev pub end_steps : List Stage → List BuilderStep
end_steps [] = []
end_steps (stage ∷ stages) =
    plain (noop_operation (stage_op_id stage stage_start_suffix))
    ∷ plain (noop_operation (stage_op_id stage stage_end_suffix))
    ∷ end_steps stages

add_ends-eq :
    (chain : ChainBuilder) (stages : List Stage) → add_ends chain stages ≡ chain ++ end_steps stages
unfolding add_ends add_operation
add_ends-eq chain [] = rw append-nil
add_ends-eq chain (stage ∷ stages) =
    add_ends-eq
      ((chain ++ plain (noop_operation (stage_op_id stage stage_start_suffix)) ∷ [])
        ++ plain (noop_operation (stage_op_id stage stage_end_suffix)) ∷ [])
      stages
    ∙ simp append_assoc

end_steps-IsNamed : (stages : List Stage) → All (λ s. IsNamed s.operation) (end_steps stages)
end_steps-IsNamed [] = tt
end_steps-IsNamed (stage ∷ stages) =
    (noop_operation-IsNamed _, (noop_operation-IsNamed _, end_steps-IsNamed stages))

module _ (lib : GraphLib) where
  open lib use {Graph, edge}

  -- From the operation that a run of stages follows there is a path to the start of each of them.
  Reaches-start :
      (g : Graph) (i : String) (prev : BuilderStep) (b : Stage) (l : List Stage)
      → id prev.operation ≡ i
      → Chained lib g (some prev) (end_steps l)
      → Memᴰ b l
      → Reaches (edge g) i (stage_start b)
  Reaches-start g i prev b [] e c m = absurd (Memᴰ.not-nil m)
  Reaches-start g i prev b (x ∷ l) e (_, f₁, (_, f₂, c)) m =
      let e₁ : edge g i (stage_start x) ≡ true = rw (e, id-noop_operation) at f₁ in
      let e₂ : edge g (stage_start x) (stage_end x) ≡ true =
        rw
          (
            id-noop_operation (stage_op_id x stage_start_suffix),
            id-noop_operation (stage_op_id x stage_end_suffix),
          )
          at f₂ in
      elim (Memᴰ.cases_cons m) [
        | inl same ↦ subst (λ k. Reaches (edge g) i (stage_start k)) (sym same) (next e₁ here)
        | inr later ↦
            next e₁ (next e₂ (Reaches-start g (stage_end x) _ b l (id-noop_operation _) c later))
      ]

  -- What the main stages of a list are in a graph: from the start of each to its end there is an
  -- edge, and from its end a path to the start of each later one.
  pub record MainStages (l : List Stage) (g : Graph) : Type 0 where
    pub spans : (a : Stage) → Memᴰ a l → edge g (stage_start a) (stage_end a) ≡ true
    pub order : (a b : Stage) → Before a b l → Reaches (edge g) (stage_end a) (stage_start b)

  pub MainStages-mono :
      {l : List Stage} {g g' : Graph} → Extends lib g g' → MainStages l g → MainStages l g'
  MainStages-mono x s = record {
    spans = λ a m. x.edges _ _ (s.spans a m);
    order = λ a b h. Reaches-mono x.edges (s.order a b h);
  }

  chain_spans :
      (g : Graph) (prev : Option BuilderStep) (l : List Stage) (a : Stage)
      → Chained lib g prev (end_steps l)
      → Memᴰ a l
      → edge g (stage_start a) (stage_end a) ≡ true
  chain_spans g prev [] a c m = absurd (Memᴰ.not-nil m)
  chain_spans g prev (x ∷ l) a (_, _, (_, f, c)) m = elim (Memᴰ.cases_cons m) [
    | inl same ↦
        subst (λ k. edge g (stage_start k) (stage_end k) ≡ true) (sym same)
          (rw
            (
              id-noop_operation (stage_op_id x stage_start_suffix),
              id-noop_operation (stage_op_id x stage_end_suffix),
            )
            at f)
    | inr later ↦
        chain_spans g (some (plain (noop_operation (stage_op_id x stage_end_suffix)))) l a c later
  ]

  chain_order :
      (g : Graph) (prev : Option BuilderStep) (l : List Stage) (a b : Stage)
      → Chained lib g prev (end_steps l)
      → Before a b l
      → Reaches (edge g) (stage_end a) (stage_start b)
  chain_order g prev [] a b c h = absurd h
  chain_order g prev (x ∷ l) a b (_, _, (_, _, c)) (inl (same, m)) =
      subst (λ k. Reaches (edge g) (stage_end k) (stage_start b)) (sym same)
        (Reaches-start g (stage_end x) _ b l (id-noop_operation _) c m)
  chain_order g prev (x ∷ l) a b (_, _, (_, _, c)) (inr h) =
      chain_order g (some (plain (noop_operation (stage_op_id x stage_end_suffix)))) l a b c h

  pub add_main_stages-MainStages :
      IsGraphLib lib
      → (g g' : Graph) → NamesNoops lib g
      → add_main_stages lib g ≡ ok g'
      → Grows lib g g' × MainStages stages_ordered g'
  unfolding add_main_stages
  add_main_stages-MainStages laws g g' named h =
      let done : do_chain lib g (end_steps stages_ordered) ≡ ok g' =
        ap (do_chain lib g) (sym (add_ends-eq [] stages_ordered)) ∙ wrap_err-eq-ok _ _ h in
      let (x, c) =
        do_chain-Grows lib laws g (end_steps stages_ordered) g' named
          (end_steps-IsNamed stages_ordered) done in
      (
        x,
        record {
          spans = λ a m. chain_spans g' none stages_ordered a c m;
          order = λ a b b'. chain_order g' none stages_ordered a b c b';
        },
      )

  -- An operation within a stage.
  pub record Within (g : Graph) (stage : Stage) (i : String) : Type 0 where
    pub after_start : Reaches (edge g) (stage_start stage) i
    pub before_end : Reaches (edge g) i (stage_end stage)

  pub Within-mono :
      {g g' : Graph} {stage : Stage} {i : String}
      → Extends lib g g'
      → Within g stage i
      → Within g' stage i
  Within-mono x w = record {
    after_start = Reaches-mono x.edges w.after_start;
    before_end = Reaches-mono x.edges w.before_end;
  }

  -- What is within an earlier stage comes before all that is within a later one.
  pub stage_to_stage :
      {l : List Stage} {g : Graph} {a b : Stage} {i j : String}
      → MainStages l g
      → Before a b l
      → Within g a i
      → Within g b j
      → Reaches (edge g) i j
  stage_to_stage s h wi wj =
      Reaches-trans wi.before_end (Reaches-trans (s.order _ _ h) wj.after_start)
