-- ===== src/Plan/Build/Compose/Within.antt =====
-- Where each operation of a built graph stands (pkg/plan/plan_build.go): between the ends of a main
-- stage, whether or not its resource has a weight.
use mathlib.Core.List.Memᴰ
use mathlib.Core.Logic.{⊎_elim}
use text.Mathlib.TextLemmas.{append-eq-nil_iff}
use nelm.Base.{
  String, false, Option, some, List, [], ◌∷◌, ◌++◌, Memᴰ, ◌≡◌, refl, sym, subst, ◌==◌, inl, inr,
  All-at, eq_iff, Bool-cases, Option-cases, ℤ,
}
use nelm.Common.{Stage, stages_ordered, sub_stage_weighted}
use nelm.Resource.{IntPtr}
use nelm.Plan.Operation.{Operation, id}
use nelm.Plan.Info.{InstallableResourceInfo}
use nelm.Plan.Graph.{GraphLib}
use nelm.Plan.Graph.Paths.{Reaches, here, next, Reaches-trans}
use nelm.Plan.Chain.{BuilderStep}
use nelm.Plan.Build.Resources.{install_stage}
use nelm.Plan.Chain.Builder.{staged_step}
use nelm.Plan.Build.Named.{id-noop_operation}
use nelm.Plan.Build.Resources.InstallSteps.{stage_of}
use mathlib.Core.Bool.{false≢true}
use nelm.Plan.Build.Stages.Main.{Within}
use nelm.Plan.Build.Stages.Weighted.{WeightPlaced}
use nelm.Plan.Chain.Placement.{Placed, Chained}

pub stage-ne-empty : (a : Stage) → Memᴰ a stages_ordered → (a == "") ≡ false
stage-ne-empty a m =
    All-at (λ k. (k == "") ≡ false) a stages_ordered m
      (
        refl,
        (refl, (refl, (refl, (refl, (refl, (refl, (refl, (refl, (refl, (refl, (refl, tt))))))))))),
      )

sub_stage-ne-empty : (a : Stage) (w : ℤ) → (sub_stage_weighted a w == "") ≡ false
unfolding sub_stage_weighted
sub_stage-ne-empty a w = elim (Bool-cases (sub_stage_weighted a w == "")) [
  | inl e ↦
      let rest = (append-eq-nil_iff {p = a}).0 ((eq_iff (sub_stage_weighted a w) "").0 e) in
      let weight = (append-eq-nil_iff {p = "/weight:"}).0 rest.1 in
      absurd (false≢true ((eq_iff "/weight:" "").1 weight.0))
  | inr e ↦ e
]

module _ (lib : GraphLib) where
  open lib use {Graph, edge}

  pub Placed-Within :
      (g : Graph) (op : Operation) (stage : Stage)
      → (stage == "") ≡ false
      → Placed lib g (staged_step op stage)
      → Within lib g stage (id op)
  Placed-Within g op stage n p =
      let (x, y) = p.staged refl n in record { after_start = next x here; before_end = next y here }

  -- What is within a sub-stage is within its stage.
  sub_stage-Within :
      (g : Graph) (stage : Stage) (w : ℤ) (i : String)
      → (stage == "") ≡ false
      → WeightPlaced lib g stage w
      → Within lib g (sub_stage_weighted stage w) i
      → Within lib g stage i
  sub_stage-Within g stage w i n p inner =
      let (x, _) = p.start_placed.staged refl n in
      let (_, y) = p.end_placed.staged refl n in
      record {
        after_start = Reaches-trans (next (rw id-noop_operation at x) here) inner.after_start;
        before_end = Reaches-trans inner.before_end (next (rw id-noop_operation at y) here);
      }

  pub Chained-Placed :
      (g : Graph) (prev : Option BuilderStep) (steps : List BuilderStep) (s : BuilderStep)
      → Chained lib g prev steps
      → Memᴰ s steps
      → Placed lib g s
  Chained-Placed g prev [] s c m = absurd (Memᴰ.not-nil m)
  Chained-Placed g prev (t ∷ steps) s (p, _, c) m =
      ⊎_elim (λ same. subst (Placed lib g) (sym same) p)
        (λ later. Chained-Placed g (some t) steps s c later) (Memᴰ.cases_cons m)

  -- An operation in the stage of an info, or in its sub-stage.
  pub stage_of-Within :
      (g : Graph) (info : InstallableResourceInfo) (op : Operation)
      → (info.stage == "") ≡ false
      → ((w : IntPtr) → info.local_resource.weight ≡ some w → WeightPlaced lib g info.stage w.value)
      → Placed lib g (staged_step op (stage_of info))
      → Within lib g info.stage (id op)
  unfolding install_stage
  stage_of-Within g info op n weights p = elim (Option-cases info.local_resource.weight) [
    | inl e ↦ Placed-Within g op info.stage n (rw e at p)
    | inr (w, e) ↦ sub_stage-Within g info.stage w.value (id op) n (weights w e) (
        Placed-Within g op (sub_stage_weighted info.stage w.value)
          (sub_stage-ne-empty info.stage w.value) (rw e at p))
  ]

  -- The operations of a chain that stand in it one after the other.
  pub chain-Reaches :
      (g : Graph) (prev : BuilderStep) (steps : List BuilderStep) (s : BuilderStep)
      → Chained lib g (some prev) steps
      → Memᴰ s steps
      → Reaches (edge g) (id prev.operation) (id s.operation)
  chain-Reaches g prev [] s c m = absurd (Memᴰ.not-nil m)
  chain-Reaches g prev (t ∷ steps) s (_, f, c) m =
      ⊎_elim
        (λ same.
          subst (λ k. Reaches (edge g) (id prev.operation) (id k.operation)) (sym same)
            (next f here))
        (λ later. next f (chain-Reaches g t steps s c later)) (Memᴰ.cases_cons m)

  pub append-Reaches :
      (g : Graph) (prev : Option BuilderStep) (xs ys : List BuilderStep) (x y : BuilderStep)
      → Chained lib g prev (xs ++ ys)
      → Memᴰ x xs
      → Memᴰ y ys
      → Reaches (edge g) (id x.operation) (id y.operation)
  append-Reaches g prev [] ys x y c mx my = absurd (Memᴰ.not-nil mx)
  append-Reaches g prev (t ∷ xs) ys x y (_, _, c) mx my =
      ⊎_elim
        (λ same.
          subst (λ k. Reaches (edge g) (id k.operation) (id y.operation)) (sym same)
            (chain-Reaches g t (xs ++ ys) y c (Memᴰ.append_right xs my)))
        (λ later. append-Reaches g (some t) xs ys x y c later my) (Memᴰ.cases_cons mx)

  pub append_tail :
      (g : Graph) (prev : Option BuilderStep) (xs ys : List BuilderStep)
      → Chained lib g prev (xs ++ ys)
      → (last : Option BuilderStep) × Chained lib g last ys
  append_tail g prev [] ys c = (prev, c)
  append_tail g prev (t ∷ xs) ys (_, _, c) = append_tail g (some t) xs ys c
