-- ===== src/Plan/Build/Compose/BuildOrder.antt =====
-- BuildPlan (pkg/plan/plan_build.go) up to Optimize: the order that a graph built without an error
-- puts the operations in.
use mathlib.Core.List.Memᴰ
use nelm.Base.{String, true, none, some, List, [], ◌∷◌, ◌++◌, Memᴰ, ◌≡◌, Result, ok, All-at}
use nelm.Common.{Stage, stages_ordered, stages_sort_handler}
use nelm.Resource.{InternalDependency, ExternalDependency}
use nelm.Release.{HelmRelease}
use nelm.Plan.Operation.{Operation, id}
use nelm.Plan.Info.{InstallableResourceInfo, DeletableResourceInfo, ReleaseInfo}
use nelm.Plan.Graph.{GraphLib, IsGraphLib}
use nelm.Plan.Graph.Paths.{Reaches}
use nelm.Plan.Build.Stages.{StageWeights}
use nelm.Plan.Build.Resources.{track_readiness_op}
use nelm.Plan.Build.Dependencies.{
  get_deploy_op, get_delete_op, find_track_absence_op_in_stage, depend_upon_op,
}
use nelm.Plan.Build.Compose.{build_graph}
use nelm.Plan.Build.Compose.Built.{Built, build_graph-Built}
use nelm.Plan.Build.Compose.Within.{append-Reaches, append_tail}
use nelm.Plan.Build.Compose.Order.{PlacedAs, PlacedBy, Built-presence, PlacedBy-order}
use nelm.Plan.Chain.Builder.{staged_step}
use nelm.Plan.Build.Resources.InstallSteps.{
  deploy_op, presence_op, cleanup_op, stage_of, presence_steps, deploy_steps, track_steps,
  cleanup_steps, install_steps, deploy_mem, track_mem, cleanup_mem,
}
use nelm.Plan.Build.Dependencies.Edges.{WaitsFor, DeployWaits}
use nelm.Plan.Build.Dependencies.DeleteEdges.{DeleteWaits, DeleteWaitsFor}
use nelm.Plan.Build.Resources.Placed.{delete_op, absence_op, Deleted}
use nelm.Plan.Build.Releases.Placed.{IsCopy}
use nelm.Plan.Build.Stages.Weighted.{KeepsEntries}
use nelm.Plan.Chain.Placement.{Chained}

module _ (lib : GraphLib) (laws : IsGraphLib lib) (copy : HelmRelease → Result HelmRelease)
    (copies : IsCopy copy) (visit : StageWeights → StageWeights) (keeps : KeepsEntries visit)
    (inst_infos : List InstallableResourceInfo) (del_infos : List DeletableResourceInfo)
    (release_infos : List ReleaseInfo) (g : lib.Graph)
    (built : build_graph lib copy visit inst_infos del_infos release_infos ≡ ok g) where
  open lib use {edge}

  whole : Built lib inst_infos del_infos release_infos g
  whole =
      build_graph-Built lib laws copy copies visit keeps inst_infos del_infos release_infos g built

  -- A graph that was built without an error has a path from each operation that the infos ask for in
  -- one stage to each that they ask for in another, where both stages are in stages_ordered and the
  -- first sorts before the second. This is said of deployments, readiness tracking, deletions (also
  -- those after a successful installation) with their absence tracking, and release operations, and
  -- of a resource with or without a weight. The operation that tracks the presence of an external
  -- dependency is meant only as the earlier one, with the stage of any resource that is deployed
  -- and has the dependency: resources that share it share one operation.
  pub build_graph-stage_order :
      (a c : Stage) (i j : String)
      → Memᴰ a stages_ordered
      → Memᴰ c stages_ordered
      → stages_sort_handler a c ≡ true
      → PlacedBy inst_infos del_infos release_infos a i
      → PlacedAs inst_infos del_infos release_infos c j
      → Reaches (edge g) i j
  build_graph-stage_order a c i j =
      PlacedBy-order lib inst_infos del_infos release_infos g whole a c i j

  chain_of :
      (info : InstallableResourceInfo)
      → Memᴰ info inst_infos
      → Chained lib g none (install_steps info)
  chain_of info m =
      All-at (λ k. Chained lib g none (install_steps k)) info inst_infos m whole.installs

  -- In a graph built without an error, a resource that is deployed is deployed after the operation
  -- that tracks the presence of each of its external dependencies. Nothing is said of their
  -- readiness.
  pub build_graph-presence_first :
      (info : InstallableResourceInfo) (dep : ExternalDependency) (op : Operation)
      → Memᴰ info inst_infos
      → Memᴰ dep info.local_resource.external_dependencies
      → deploy_op info info.must_install ≡ some op
      → Reaches (edge g) (id (presence_op dep)) (id op)
  build_graph-presence_first = Built-presence lib inst_infos del_infos release_infos g whole

  -- In a graph built without an error, if a resource is deployed and its readiness is tracked, it is
  -- tracked after the deployment.
  pub build_graph-deploy_before_readiness :
      (info : InstallableResourceInfo) (op : Operation)
      → Memᴰ info inst_infos
      → deploy_op info info.must_install ≡ some op
      → info.must_track_readiness ≡ true
      → Reaches (edge g) (id op) (id (track_readiness_op info))
  unfolding install_steps
  build_graph-deploy_before_readiness info op m e t =
      let (last, c) = append_tail lib g none (presence_steps info) _ (chain_of info m) in
      append-Reaches lib g last (deploy_steps info info.must_install)
        (track_steps info ++ cleanup_steps info) (staged_step op (stage_of info))
        (staged_step (track_readiness_op info) (stage_of info)) c (deploy_mem info op e)
        (Memᴰ.append_left (cleanup_steps info) (track_mem info t))

  -- In a graph built without an error, a resource whose readiness is tracked and that is deleted after
  -- a successful installation is deleted after its readiness was tracked.
  pub build_graph-readiness_before_cleanup :
      (info : InstallableResourceInfo)
      → Memᴰ info inst_infos
      → info.must_track_readiness ≡ true
      → info.must_delete_on_successful_install ≡ true
      → Reaches (edge g) (id (track_readiness_op info)) (id (cleanup_op info))
  unfolding install_steps
  build_graph-readiness_before_cleanup info m t d =
      let (last, c) = append_tail lib g none (presence_steps info) _ (chain_of info m) in
      let (last', c') = append_tail lib g last (deploy_steps info info.must_install) _ c in
      append-Reaches lib g last' (track_steps info) (cleanup_steps info)
        (staged_step (track_readiness_op info) (stage_of info))
        (staged_step (cleanup_op info) info.stage_delete_on_successful_install) c'
        (track_mem info t) (cleanup_mem info d)

  -- In a graph built without an error, the absence of a deleted resource is tracked right after its
  -- deletion.
  pub build_graph-delete_before_absence :
      (info : DeletableResourceInfo)
      → Memᴰ info del_infos
      → info.must_delete ≡ true
      → info.must_track_absence ≡ true
      → edge g (id (delete_op info)) (id (absence_op info)) ≡ true
  build_graph-delete_before_absence info m d t =
      let (_, _, c) = All-at (Deleted lib g) info del_infos m whole.deletes d in
      let (_, f, _) : Chained lib g (some (staged_step (delete_op info) info.stage))
          (staged_step (absence_op info) info.stage ∷ []) =
        rw t at c in
      f

  -- In a graph built without an error, each internal dependency of a resource, detected or declared,
  -- for which an operation to wait for is found in the graph, is an edge from that operation to the
  -- operation that deploys the resource.
  pub build_graph-deploy_dependency :
      (info : InstallableResourceInfo) (op upon : Operation) (dep : InternalDependency)
      → Memᴰ info inst_infos
      → get_deploy_op (lib.vertex g) info ≡ ok (some op)
      → Memᴰ dep (
          info.local_resource.auto_internal_dependencies
          ++ info.local_resource.manual_internal_dependencies)
      → depend_upon_op (lib.vertex g) inst_infos del_infos info.stage dep dep.resource_state
        ≡ ok (some upon)
      → edge g (id upon) (id op) ≡ true
  build_graph-deploy_dependency info op upon dep m e md f =
      All-at (WaitsFor lib inst_infos del_infos info.stage op g) dep
        (info.local_resource.auto_internal_dependencies
          ++ info.local_resource.manual_internal_dependencies)
        md (All-at (DeployWaits lib inst_infos del_infos g) info inst_infos m whole.waits op e) upon
        f

  -- In a graph built without an error, each internal dependency of a resource that is deleted, detected
  -- or declared, is an edge from each operation that it finds to the operation that deletes the
  -- resource.
  pub build_graph-delete_dependency :
      (info : DeletableResourceInfo) (op upon : Operation) (dep : InternalDependency)
      → Memᴰ info del_infos
      → get_delete_op (lib.vertex g) info ≡ ok (some op)
      → Memᴰ dep (
          info.local_resource.auto_internal_dependencies
          ++ info.local_resource.manual_internal_dependencies)
      → Memᴰ upon
          (find_track_absence_op_in_stage (lib.vertex g) del_infos inst_infos dep info.stage)
      → edge g (id upon) (id op) ≡ true
  build_graph-delete_dependency info op upon dep m e md mu =
      All-at (λ u. edge g (id u) (id op) ≡ true) upon
        (find_track_absence_op_in_stage (lib.vertex g) del_infos inst_infos dep info.stage) mu
        (All-at (DeleteWaitsFor lib del_infos inst_infos info.stage op g) dep
          (info.local_resource.auto_internal_dependencies
            ++ info.local_resource.manual_internal_dependencies)
          md
          (All-at (DeleteWaits lib del_infos inst_infos g) info del_infos m whole.delete_waits op
            e))
