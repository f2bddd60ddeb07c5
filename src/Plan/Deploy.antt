-- ===== src/Plan/Deploy.antt =====
-- BuildPlan, Optimize and ExecutePlan (pkg/plan) one after the other.
use nelm.Base.{String, Bool, true, some, List, Memᴰ, ◌≡◌, ◌≢◌, ◌⊎◌, Result, ok, ℤ}
use nelm.Common.{Stage, stages_ordered, stages_sort_handler}
use nelm.Release.{HelmRelease}
use nelm.Plan.Operation.{status_unknown, status_completed, Operation}
use nelm.Plan.Info.{InstallableResourceInfo, DeletableResourceInfo, ReleaseInfo}
use nelm.Plan.Execute.{Waiting, System, Reached, IsPredecessorMap}
use nelm.Plan.Execute.Safety.{started-Reaches}
use nelm.Plan.Optimize.{GraphEdits, NoCycle, IsGraphEdits, Optimizes}
use nelm.Plan.Optimize.Reduced.{Optimizes-paths}
use nelm.Plan.Optimize.Metas.{IsLasting}
use nelm.Plan.Graph.{GraphLib, IsGraphLib}
use nelm.Plan.Build.Stages.{StageWeights}
use nelm.Plan.Build.Compose.BuildOrder.{build_graph-stage_order}
use nelm.Plan.Build.Compose.{build_graph}
use nelm.Plan.Build.Compose.Order.{PlacedAs, placed}
use nelm.Plan.Build.Releases.Placed.{IsCopy}
use nelm.Plan.Build.Stages.Weighted.{KeepsEntries}

module _ (lib : GraphLib) (laws : IsGraphLib lib) (copy : HelmRelease → Result HelmRelease)
    (copies : IsCopy copy) (visit : StageWeights → StageWeights) (keeps : KeepsEntries visit)
    (inst_infos : List InstallableResourceInfo) (del_infos : List DeletableResourceInfo)
    (release_infos : List ReleaseInfo) (g : lib.Graph)
    (built : build_graph lib copy visit inst_infos del_infos release_infos ≡ ok g)
    (edits : GraphEdits lib) (edit_laws : IsGraphEdits lib edits) (no_final_tracking : Bool)
    (plan : lib.Graph) (optimized : Optimizes lib edits no_final_tracking g plan) where
  open lib use {edge, vertex}

  -- In every state of an execution of a plan that was built and optimized without an error, whatever
  -- failed or was cancelled: of two operations on resources or releases that the infos ask for, in
  -- stages of stages_ordered of which the first sorts before the second, the operation of the later
  -- stage was handed to a worker only if the operation of the earlier stage is completed.
  pub executed-stage_order :
      (ops : Waiting) (n : ℤ) (s : System)
      → NoCycle lib g
      → IsPredecessorMap (edge plan) ops
      → Reached n ops s
      → (a c : Stage) (i j : String) (op op' : Operation) → Memᴰ a stages_ordered
      → Memᴰ c stages_ordered
      → stages_sort_handler a c ≡ true
      → PlacedAs inst_infos del_infos release_infos a i
      → PlacedAs inst_infos del_infos release_infos c j
      → vertex g i ≡ some op
      → vertex g j ≡ some op'
      → IsLasting op
      → IsLasting op'
      → s.status j ≢ status_unknown
      → (i ≡ j) ⊎ (s.status i ≡ status_completed)
  executed-stage_order ops n s acyclic m r a c i j op op' ma mc sorts pi pj vi vj li lj =
      let walk =
        build_graph-stage_order lib laws copy copies visit keeps inst_infos del_infos release_infos
          g built a c i j ma mc sorts (placed pi) pj in
      let kept =
        Optimizes-paths lib laws edits edit_laws i j no_final_tracking g plan op op' acyclic
          optimized vi vj li lj walk in
      started-Reaches (edge plan) ops n s m r i j kept.2
