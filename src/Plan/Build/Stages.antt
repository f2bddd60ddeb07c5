-- ===== src/Plan/Build/Stages.antt =====
-- pkg/plan/plan_build.go: addMainStages and addWeightedSubStages.
pub mod Main
pub mod Weights
pub mod Weighted
use nelm.Base.{
  Bool, true, false, Option, none, some, List, [], ◌∷◌, ◌++◌, map, ◌==◌, not, Result, ok, wrap_err,
  ◌>>=◌, if◌then◌else◌, filter_by, leb, nat_eq, ℤ, pos, negsuc,
}
use nelm.Common.{Stage, stages_ordered, stage_start_suffix, stage_end_suffix, sub_stage_weighted}
use nelm.Resource.{IntPtr}
use nelm.Plan.Info.{InstallableResourceInfo}
use nelm.Plan.Graph.{GraphLib}
use nelm.Plan.Chain.{ChainBuilder, add_operation, stage_op_id, do_chain}
use nelm.Plan.Build.{noop_operation, add_staged}

add_ends : ChainBuilder → List Stage → ChainBuilder
add_ends chain [] = chain
add_ends chain (stage ∷ stages) =
    add_ends
      (add_operation (add_operation chain (noop_operation (stage_op_id stage stage_start_suffix)))
        (noop_operation (stage_op_id stage stage_end_suffix)))
      stages

unfoldable pub add_main_stages : (lib : GraphLib) → lib.Graph → Result lib.Graph
unfolding add_ends
add_main_stages lib plan =
    wrap_err "do add chain operations" (do_chain lib plan (add_ends [] stages_ordered))

-- a ≤ b on Go ints.
int_le : ℤ → ℤ → Bool
int_le (pos a) (pos b) = leb a b
int_le (pos a) (negsuc b) = false
int_le (negsuc a) (pos b) = true
int_le (negsuc a) (negsuc b) = leb b a

int_eq : ℤ → ℤ → Bool
int_eq (pos a) (pos b) = nat_eq a b
int_eq (negsuc a) (negsuc b) = nat_eq a b
int_eq _ _ = false

insert_int : ℤ → List ℤ → List ℤ
unfolding int_le
insert_int a [] = a ∷ []
insert_int a (b ∷ l) = if int_le a b then a ∷ b ∷ l else b ∷ insert_int a l

-- sort.Ints, whose result does not depend on the algorithm.
pub sort_ints : List ℤ → List ℤ
unfolding insert_int
sort_ints [] = []
sort_ints (a ∷ l) = insert_int a (sort_ints l)

-- lo.Uniq: the first of equal elements stays.
pub uniq_ints : List ℤ → List ℤ
unfolding int_eq
uniq_ints [] = []
uniq_ints (a ∷ l) = a ∷ filter_by (λ b. not (int_eq a b)) (uniq_ints l)

-- The map stageWeights, as the list of its entries.
abbrev pub StageWeights : Type 0
StageWeights = List (Stage × List ℤ)

-- stageWeights[stage] = append(stageWeights[stage], weight), with an empty list for a new stage
append_weight : Stage → ℤ → StageWeights → StageWeights
append_weight stage w [] = (stage, w ∷ []) ∷ []
append_weight stage w ((s, ws) ∷ m) =
    if s == stage then (s, ws ++ w ∷ []) ∷ m else (s, ws) ∷ append_weight stage w m

-- The step of the first loop for one info, by its weight.
collect_weight : Stage → Option IntPtr → StageWeights → StageWeights
unfolding append_weight
collect_weight stage none m = m
collect_weight stage (some w) m = append_weight stage w.value m

pub collect_weights : List InstallableResourceInfo → StageWeights → StageWeights
unfolding collect_weight
collect_weights [] m = m
collect_weights (info ∷ infos) m =
    collect_weights infos (collect_weight info.stage info.local_resource.weight m)

-- The inner loop over the weights of a stage.
add_weights : ChainBuilder → Stage → List ℤ → Result ChainBuilder
add_weights chain stage [] = ok chain
add_weights chain stage (w ∷ ws) = do
  let sub_stage = sub_stage_weighted stage w
  chain₁ ← add_staged chain (noop_operation (stage_op_id sub_stage stage_start_suffix)) stage
  chain₂ ← add_staged chain₁ (noop_operation (stage_op_id sub_stage stage_end_suffix)) stage
  add_weights chain₂ stage ws

module _ (lib : GraphLib) where
  open lib use {Graph}

  add_sub_stages : Graph → StageWeights → Result Graph
  unfolding add_weights
  add_sub_stages plan [] = ok plan
  add_sub_stages plan ((stage, ws) ∷ m) = do
    chain ← add_weights [] stage ws
    plan' ← wrap_err "do add chain operations" (do_chain lib plan chain)
    add_sub_stages plan' m

  -- `visit` is the order in which Go ranges over the map.
  unfoldable pub add_weighted_sub_stages :
      (StageWeights → StageWeights) → Graph → List InstallableResourceInfo → Result Graph
  unfolding add_sub_stages collect_weights sort_ints uniq_ints
  add_weighted_sub_stages visit plan infos =
      add_sub_stages plan
        (visit (map (λ (s, ws). (s, uniq_ints (sort_ints ws))) (collect_weights infos [])))
