-- ===== src/Plan/Build/Dependencies.antt =====
-- pkg/plan/plan_build.go: the edges for dependencies between the resources of a release.
pub mod Edges
pub mod DeleteEdges
-- lo.Union joins the automatic and the manual dependencies. Its elements are pointers to values
-- that were allocated one by one, so it drops none.
use nelm.Base.{
  String, Bool, Option, none, some, List, [], ◌∷◌, ◌++◌, ◌==◌, ◌||◌, not, Result, ok, panic,
  wrap_err, ◌>>=◌, if◌then◌else◌, leb,
}
use nelm.Common.{ResourceState, absent, present, ready, Stage}
use nelm.Spec.{meta_id, match}
use nelm.Resource.{InternalDependency}
use nelm.Plan.Operation.{
  OperationType, type_apply, type_create, type_delete, type_recreate, type_track_absence,
  type_track_readiness, type_update, Operation, operation_id, id,
}
use nelm.Plan.Info.{
  ResourceInstallType, install_none, install_create, install_recreate, install_update,
  install_apply, InstallableResourceInfo, DeletableResourceInfo, info_id,
}
use nelm.Plan.Graph.{GraphLib}
use nelm.Plan.Chain.{must_find, connect}
use nelm.Plan.Build.Resources.{is_install_none}

unfoldable pub deploy_type : ResourceInstallType → Option OperationType
deploy_type install_create = some type_create
deploy_type install_recreate = some type_recreate
deploy_type install_update = some type_update
deploy_type install_apply = some type_apply
deploy_type install_none = none

-- The best candidate so far and the next one: the lowest iteration is kept, the first of equals.
lowest_iteration :
    (InstallableResourceInfo → Bool)
    → Option InstallableResourceInfo
    → List InstallableResourceInfo
    → Option InstallableResourceInfo
lowest_iteration fits match [] = match
lowest_iteration fits none (candidate ∷ infos) =
    lowest_iteration fits (if fits candidate then some candidate else none) infos
lowest_iteration fits (some best) (candidate ∷ infos) =
    lowest_iteration fits
      (if not (fits candidate) || leb best.iteration candidate.iteration
        then some best
        else some candidate)
      infos

-- The lookups ask the plan for operations by their identifiers (plan.Operation), and nothing else.
module _ (operation : String → Option Operation) where
  -- The Boolean result of a lookup is its `some`.
  unfoldable pub get_deploy_op : InstallableResourceInfo → Result (Option Operation)
  unfolding deploy_type
  get_deploy_op info = elim (deploy_type info.must_install) [
    | none ↦ ok none
    | some t ↦ must_find (operation (operation_id t 1 info.iteration (info_id info))) >>= λ op.
        ok (some op)
  ]

  unfoldable pub get_delete_op : DeletableResourceInfo → Result (Option Operation)
  get_delete_op info =
      if not info.must_delete
      then ok none
      else (must_find (operation (operation_id type_delete 1 0 (meta_id info.meta))) >>= λ op.
          ok (some op))

  -- A candidate for a deploy operation in the stage.
  deploys : InternalDependency → Stage → InstallableResourceInfo → Bool
  unfolding is_install_none
  deploys dep source_stage candidate = not (
      is_install_none candidate.must_install
      || not (candidate.stage == source_stage)
      || not (match dep.matcher candidate.meta))

  unfoldable pub find_deploy_op_in_stage :
      List InstallableResourceInfo → InternalDependency → Stage → Result (Option Operation)
  unfolding deploys lowest_iteration get_deploy_op
  find_deploy_op_in_stage infos dep source_stage =
      elim (lowest_iteration (deploys dep source_stage) none infos) [
        | none ↦ ok none
        | some info ↦ get_deploy_op info
      ]

  tracks_readiness : InternalDependency → Stage → InstallableResourceInfo → Bool
  tracks_readiness dep source_stage candidate = not (
      not candidate.must_track_readiness
      || not (candidate.stage == source_stage)
      || not (match dep.matcher candidate.meta))

  unfoldable pub find_track_readiness_op_in_stage :
      List InstallableResourceInfo → InternalDependency → Stage → Option Operation
  unfolding tracks_readiness lowest_iteration
  find_track_readiness_op_in_stage infos dep source_stage =
      elim (lowest_iteration (tracks_readiness dep source_stage) none infos) [
        | none ↦ none
        | some info ↦ operation (operation_id type_track_readiness 1 info.iteration (info_id info))
      ]

  -- The operation of the plan, if there is one, in front of the others that were found.
  cons_found : Option Operation → List Operation → List Operation
  cons_found none ops = ops
  cons_found (some op) ops = op ∷ ops

  -- The first loop of findTrackAbsenceOpInStage.
  deleted_ops : InternalDependency → Stage → List DeletableResourceInfo → List Operation
  unfolding cons_found
  deleted_ops dep source_stage [] = []
  deleted_ops dep source_stage (candidate ∷ infos) =
      let rest = deleted_ops dep source_stage infos in
      if not candidate.must_track_absence
        || not (candidate.stage == source_stage)
        || not (match dep.matcher candidate.meta)
      then rest
      else cons_found (operation (operation_id type_track_absence 1 0 (meta_id candidate.meta)))
          rest

  cleans_up : InternalDependency → Stage → InstallableResourceInfo → Bool
  cleans_up dep source_stage candidate = not (
      not candidate.must_delete_on_successful_install
      || not (candidate.stage_delete_on_successful_install == source_stage)
      || not (match dep.matcher candidate.meta))

  unfoldable pub find_track_absence_op_in_stage :
      List DeletableResourceInfo
      → List InstallableResourceInfo
      → InternalDependency
      → Stage
      → List Operation
  unfolding deleted_ops cleans_up lowest_iteration
  find_track_absence_op_in_stage del_infos inst_infos dep source_stage =
      elim (deleted_ops dep source_stage del_infos) [
        | op ∷ ops ↦ op ∷ ops
        | [] ↦ elim (lowest_iteration (cleans_up dep source_stage) none inst_infos) [
          | none ↦ []
          | some info ↦
              cons_found
                (operation (operation_id type_track_absence 1 info.iteration (info_id info))) []
        ]
      ]

  -- The operation that a deploy operation must wait for: of several, the first.
  unfoldable pub depend_upon_op :
      List InstallableResourceInfo
      → List DeletableResourceInfo
      → Stage
      → InternalDependency
      → ResourceState
      → Result (Option Operation)
  unfolding find_deploy_op_in_stage find_track_readiness_op_in_stage find_track_absence_op_in_stage
  depend_upon_op inst_infos del_infos stage dep present =
      find_deploy_op_in_stage inst_infos dep stage
  depend_upon_op inst_infos del_infos stage dep ready =
      ok (find_track_readiness_op_in_stage inst_infos dep stage)
  depend_upon_op inst_infos del_infos stage dep absent =
      elim (find_track_absence_op_in_stage del_infos inst_infos dep stage) [
        | [] ↦ ok none
        | op ∷ _ ↦ ok (some op)
      ]

module _ (lib : GraphLib) where
  open lib use {Graph, vertex}

  connect_found : Graph → Operation → Option Operation → Result Graph
  connect_found plan op none = ok plan
  connect_found plan op (some upon) = wrap_err "depend" (connect lib plan (id upon) (id op))

  -- The loop over the dependencies of one deploy operation.
  connect_deploy_deps :
      List InstallableResourceInfo
      → List DeletableResourceInfo
      → Stage
      → Operation
      → Graph
      → List InternalDependency
      → Result Graph
  unfolding connect_found depend_upon_op
  connect_deploy_deps inst_infos del_infos stage op plan [] = ok plan
  connect_deploy_deps inst_infos del_infos stage op plan (dep ∷ deps) = do
    upon ← depend_upon_op (vertex plan) inst_infos del_infos stage dep dep.resource_state
    plan' ← connect_found plan op upon
    connect_deploy_deps inst_infos del_infos stage op plan' deps

  -- The body of the loop of connectInternalDeployDependencies, past its test on the dependencies.
  connect_deploy_op :
      List InstallableResourceInfo
      → List DeletableResourceInfo
      → InstallableResourceInfo
      → Graph
      → List InternalDependency
      → Option Operation
      → Result Graph
  unfolding connect_deploy_deps
  connect_deploy_op inst_infos del_infos info plan deps none = ok plan
  connect_deploy_op inst_infos del_infos info plan deps (some op) =
      connect_deploy_deps inst_infos del_infos info.stage op plan deps

  connect_deploy_info :
      List InstallableResourceInfo
      → List DeletableResourceInfo
      → InstallableResourceInfo
      → Graph
      → List InternalDependency
      → Result Graph
  unfolding connect_deploy_op get_deploy_op
  connect_deploy_info inst_infos del_infos info plan [] = ok plan
  connect_deploy_info inst_infos del_infos info plan (dep ∷ deps) = do
    op ← get_deploy_op (vertex plan) info
    connect_deploy_op inst_infos del_infos info plan (dep ∷ deps) op

  connect_deploy_infos :
      List InstallableResourceInfo
      → List DeletableResourceInfo
      → Graph
      → List InstallableResourceInfo
      → Result Graph
  unfolding connect_deploy_info
  connect_deploy_infos inst_infos del_infos plan [] = ok plan
  connect_deploy_infos inst_infos del_infos plan (info ∷ infos) = do
    plan' ← connect_deploy_info inst_infos del_infos info plan (
        info.local_resource.auto_internal_dependencies
        ++ info.local_resource.manual_internal_dependencies)
    connect_deploy_infos inst_infos del_infos plan' infos

  unfoldable pub connect_internal_deploy_dependencies :
      Graph → List InstallableResourceInfo → List DeletableResourceInfo → Result Graph
  unfolding connect_deploy_infos
  connect_internal_deploy_dependencies plan inst_infos del_infos =
      connect_deploy_infos inst_infos del_infos plan inst_infos

  -- connectInternalDeleteDependencies: every operation that is found is connected.
  connect_all : Graph → Operation → List Operation → Result Graph
  connect_all plan op [] = ok plan
  connect_all plan op (upon ∷ ops) = do
    plan' ← wrap_err "depend" (connect lib plan (id upon) (id op))
    connect_all plan' op ops

  -- The switch on the state of the dependency, whose default panics.
  connect_upon : Graph → Operation → List Operation → ResourceState → Result Graph
  unfolding connect_all
  connect_upon plan op upons absent = connect_all plan op upons
  connect_upon plan op upons _ = panic

  connect_delete_deps :
      List DeletableResourceInfo
      → List InstallableResourceInfo
      → Stage
      → Operation
      → Graph
      → List InternalDependency
      → Result Graph
  unfolding connect_upon find_track_absence_op_in_stage
  connect_delete_deps del_infos inst_infos stage op plan [] = ok plan
  connect_delete_deps del_infos inst_infos stage op plan (dep ∷ deps) = do
    plan' ←
        connect_upon plan op
          (find_track_absence_op_in_stage (vertex plan) del_infos inst_infos dep stage)
          dep.resource_state
    connect_delete_deps del_infos inst_infos stage op plan' deps

  connect_delete_op :
      List DeletableResourceInfo
      → List InstallableResourceInfo
      → DeletableResourceInfo
      → Graph
      → List InternalDependency
      → Option Operation
      → Result Graph
  unfolding connect_delete_deps
  connect_delete_op del_infos inst_infos info plan deps none = ok plan
  connect_delete_op del_infos inst_infos info plan deps (some op) =
      connect_delete_deps del_infos inst_infos info.stage op plan deps

  connect_delete_info :
      List DeletableResourceInfo
      → List InstallableResourceInfo
      → DeletableResourceInfo
      → Graph
      → List InternalDependency
      → Result Graph
  unfolding connect_delete_op get_delete_op
  connect_delete_info del_infos inst_infos info plan [] = ok plan
  connect_delete_info del_infos inst_infos info plan (dep ∷ deps) = do
    op ← get_delete_op (vertex plan) info
    connect_delete_op del_infos inst_infos info plan (dep ∷ deps) op

  connect_delete_infos :
      List DeletableResourceInfo
      → List InstallableResourceInfo
      → Graph
      → List DeletableResourceInfo
      → Result Graph
  unfolding connect_delete_info
  connect_delete_infos del_infos inst_infos plan [] = ok plan
  connect_delete_infos del_infos inst_infos plan (info ∷ infos) = do
    plan' ← connect_delete_info del_infos inst_infos info plan (
        info.local_resource.auto_internal_dependencies
        ++ info.local_resource.manual_internal_dependencies)
    connect_delete_infos del_infos inst_infos plan' infos

  unfoldable pub connect_internal_delete_dependencies :
      Graph → List DeletableResourceInfo → List InstallableResourceInfo → Result Graph
  unfolding connect_delete_infos
  connect_internal_delete_dependencies plan del_infos inst_infos =
      connect_delete_infos del_infos inst_infos plan del_infos
