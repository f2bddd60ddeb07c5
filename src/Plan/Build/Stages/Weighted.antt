-- ===== src/Plan/Build/Stages/Weighted.antt =====
-- addWeightedSubStages (pkg/plan/plan_build.go): its effect on the graph.
use mathlib.Core.Logic.{⊎_elim}
use mathlib.Core.List.Memᴰ
use nelm.Base.{
  true, Option, none, some, List, [], ◌∷◌, ◌++◌, Memᴰ, ◌≡◌, ap, sym, ◌∙◌, subst, ok, wrap_err, All,
  >>=-eq-ok, wrap_err-eq-ok, ok-injective, ℤ,
}
use nelm.Common.{Stage, stage_start_suffix, stage_end_suffix, sub_stage_weighted}
use nelm.Resource.{IntPtr}
use nelm.Plan.Info.{InstallableResourceInfo}
use nelm.Plan.Build.Stages.Weights.{mem-sort_ints, mem-uniq_ints, HasWeight, collect_weights_mem}
use nelm.Plan.Graph.{GraphLib, IsGraphLib}
use nelm.Plan.Chain.{BuilderStep, ChainBuilder, stage_op_id, do_chain}
use nelm.Plan.Build.{noop_operation}
use nelm.Plan.Build.Stages.{
  sort_ints, uniq_ints, StageWeights, add_weights, add_sub_stages, add_weighted_sub_stages,
}
use nelm.Plan.Chain.Builder.{staged_step, in_stage-add_operation}
use nelm.Plan.Build.Named.{noop_operation-IsNamed, id-noop_operation}
use mathlib.Core.List.{append-nil, append_assoc}
use nelm.Plan.Build.Grows.{Grows, Grows-refl, Grows-trans, do_chain-Grows}
use nelm.Plan.Chain.Placement.{
  stage_start, stage_end, IsNamed, Extends, NamesNoops, Placed, Chained, Placed-mono,
}

abbrev sub_start : Stage → ℤ → BuilderStep
sub_start stage w =
    staged_step (noop_operation (stage_op_id (sub_stage_weighted stage w) stage_start_suffix)) stage

abbrev sub_end : Stage → ℤ → BuilderStep
sub_end stage w =
    staged_step (noop_operation (stage_op_id (sub_stage_weighted stage w) stage_end_suffix)) stage

abbrev weight_steps : Stage → List ℤ → List BuilderStep
weight_steps stage [] = []
weight_steps stage (w ∷ ws) = sub_start stage w ∷ sub_end stage w ∷ weight_steps stage ws

add_weights-eq :
    (chain : ChainBuilder) (stage : Stage) (ws : List ℤ)
    → add_weights chain stage ws ≡ ok (chain ++ weight_steps stage ws)
unfolding add_weights
add_weights-eq chain stage [] = rw append-nil
add_weights-eq chain stage (w ∷ ws) =
    rw (in_stage-add_operation chain (sub_start stage w).operation stage) (
      rw (in_stage-add_operation _ (sub_end stage w).operation stage) (
        add_weights-eq ((chain ++ sub_start stage w ∷ []) ++ sub_end stage w ∷ []) stage ws
        ∙ simp append_assoc))

weight_steps-IsNamed :
    (stage : Stage) (ws : List ℤ) → All (λ s. IsNamed s.operation) (weight_steps stage ws)
weight_steps-IsNamed stage [] = tt
weight_steps-IsNamed stage (w ∷ ws) =
    (noop_operation-IsNamed _, (noop_operation-IsNamed _, weight_steps-IsNamed stage ws))

-- Ranging over a map meets every entry.
abbrev pub KeepsEntries : (StageWeights → StageWeights) → Type 0
KeepsEntries visit = (m : StageWeights) (e : Stage × List ℤ) → Memᴰ e m → Memᴰ e (visit m)

module _ (lib : GraphLib) where
  open lib use {Graph, edge}

  -- The ends of the sub-stage stand in the stage, joined by an edge.
  pub record WeightPlaced (g : Graph) (stage : Stage) (w : ℤ) : Type 0 where
    pub start_placed : Placed lib g (sub_start stage w)
    pub end_placed : Placed lib g (sub_end stage w)
    pub spans :
        edge g (stage_start (sub_stage_weighted stage w)) (stage_end (sub_stage_weighted stage w))
        ≡ true

  pub WeightPlaced-mono :
      {g g' : Graph} {stage : Stage} {w : ℤ}
      → Extends lib g g'
      → WeightPlaced g stage w
      → WeightPlaced g' stage w
  WeightPlaced-mono x p = record {
    start_placed = Placed-mono lib x p.start_placed;
    end_placed = Placed-mono lib x p.end_placed;
    spans = x.edges _ _ p.spans;
  }

  chain-WeightPlaced :
      (g : Graph) (stage : Stage) (ws : List ℤ) (prev : Option BuilderStep) (w : ℤ)
      → Chained lib g prev (weight_steps stage ws)
      → Memᴰ w ws
      → WeightPlaced g stage w
  chain-WeightPlaced g stage [] prev w c m = absurd (Memᴰ.not-nil m)
  chain-WeightPlaced g stage (v ∷ ws) prev w (p₁, _, (p₂, f, c)) m =
      ⊎_elim
        (λ same. subst (WeightPlaced g stage) (sym same) (record {
          start_placed = p₁;
          end_placed = p₂;
          spans =
              rw
                (
                  id-noop_operation (stage_op_id (sub_stage_weighted stage v) stage_start_suffix),
                  id-noop_operation (stage_op_id (sub_stage_weighted stage v) stage_end_suffix),
                )
                at f;
        }))
        (λ later. chain-WeightPlaced g stage ws (some (sub_end stage v)) w c later)
        (Memᴰ.cases_cons m)

  AllWeightsPlaced : Graph → StageWeights → Type 0
  AllWeightsPlaced g m =
      (stage : Stage) (ws : List ℤ) (w : ℤ)
      → Memᴰ (stage, ws) m
      → Memᴰ w ws
      → WeightPlaced g stage w

  add_sub_stages-Placed :
      IsGraphLib lib
      → (g : Graph) (m : StageWeights) (g' : Graph) → NamesNoops lib g
      → add_sub_stages lib g m ≡ ok g'
      → Grows lib g g' × AllWeightsPlaced g' m
  unfolding add_sub_stages AllWeightsPlaced
  add_sub_stages-Placed laws g [] g' named h = (
    subst (Grows lib g) (ok-injective h) (Grows-refl lib g),
    λ stage ws w entry has. absurd (Memᴰ.not-nil entry),
  )
  add_sub_stages-Placed laws g ((s, vs) ∷ m) g' named h =
      let (chain, e, h₁) = >>=-eq-ok (add_weights [] s vs) _ h in
      let (g₁, e₁, h₂) =
        >>=-eq-ok (wrap_err "do add chain operations" (do_chain lib g chain)) _ h₁ in
      let same : chain ≡ weight_steps s vs = ok-injective (sym e ∙ add_weights-eq [] s vs) in
      let (x₁, c) =
        do_chain-Grows lib laws g (weight_steps s vs) g₁ named (weight_steps-IsNamed s vs)
          (ap (do_chain lib g) (sym same) ∙ wrap_err-eq-ok _ (do_chain lib g chain) e₁) in
      let (x₂, all) = add_sub_stages-Placed laws g₁ m g' (x₁.names named) h₂ in
      (
        Grows-trans lib x₁ x₂,
        λ stage ws w entry has.
            ⊎_elim
              (λ here_entry. WeightPlaced-mono x₂.extends (
                subst (λ k. WeightPlaced g₁ k w) (ap (λ (p : Stage × List ℤ). p.0) (sym here_entry))
                  (chain-WeightPlaced g₁ s vs none w c
                    (subst (Memᴰ w) (ap (λ (p : Stage × List ℤ). p.1) here_entry) has))))
              (λ later. all stage ws w later has) (Memᴰ.cases_cons entry),
      )

  -- Every weight of an info has its sub-stage, whatever the order in which the map is visited.
  pub add_weighted_sub_stages-Placed :
      IsGraphLib lib
      → (visit : StageWeights → StageWeights) → KeepsEntries visit
      → (g : Graph) (infos : List InstallableResourceInfo) (g' : Graph) → NamesNoops lib g
      → add_weighted_sub_stages lib visit g infos ≡ ok g'
      → Grows lib g g'
        × ((info : InstallableResourceInfo) (w : IntPtr)
            → Memᴰ info infos
            → info.local_resource.weight ≡ some w
            → WeightPlaced g' info.stage w.value)
  unfolding add_weighted_sub_stages AllWeightsPlaced HasWeight
  add_weighted_sub_stages-Placed laws visit keeps g infos g' named h =
      let (x, all) = add_sub_stages-Placed laws g _ g' named h in
      (
        x,
        λ info w i e.
            let (ws, entry, has) = collect_weights_mem infos info w [] i e in
            all info.stage (uniq_ints (sort_ints ws)) w.value
              (keeps _ _
                (Memᴰ.map (λ (p : Stage × List ℤ). (p.0, uniq_ints (sort_ints p.1))) entry))
              (mem-uniq_ints w.value (sort_ints ws) (mem-sort_ints w.value ws has)),
      )
