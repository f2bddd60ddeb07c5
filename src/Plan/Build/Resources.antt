-- ===== src/Plan/Build/Resources.antt =====
-- pkg/plan/plan_build.go: the operations that delete and install resources.
pub mod InstallSteps
pub mod Placed
use nelm.Base.{
  Bool, true, false, Option, none, some, List, [], ◌∷◌, not, Result, ok, wrap_err, ◌>>=◌,
  if◌then◌else◌,
}
use nelm.Common.{Stage, sub_stage_weighted}
use nelm.Resource.{IntPtr, ExternalDependency, InstallableResource}
use nelm.Plan.Operation.{
  category_resource, category_track, type_apply, type_create, type_delete, type_recreate,
  type_track_absence, type_track_presence, type_track_readiness, type_update, create, recreate,
  update, apply, delete, track_readiness, track_presence, track_absence, Operation,
}
use nelm.Plan.Info.{
  ResourceInstallType, install_none, install_create, install_recreate, install_update,
  install_apply, InstallableResourceInfo, DeletableResourceInfo,
}
use nelm.Plan.Graph.{GraphLib}
use nelm.Plan.Chain.{ChainBuilder, skip_on_duplicate, do_chain}
use nelm.Plan.Build.{new_operation, add_staged}

module _ (lib : GraphLib) where
  open lib use {Graph}

  -- The body of the loop of addDeleteResourcesOps, for an info that must be deleted.
  delete_resource : Graph → DeletableResourceInfo → Result Graph
  delete_resource plan info = do
    chain ←
        add_staged []
          (new_operation type_delete category_resource 0
            (delete info.meta info.local_resource.delete_propagation))
          info.stage
    chain' ←
        (if info.must_track_absence
          then add_staged chain
              (new_operation type_track_absence category_track 0 (track_absence info.meta))
              info.stage
          else ok chain)
    wrap_err "do add chain operations" (do_chain lib plan chain')

  unfoldable pub add_delete_resources_ops : Graph → List DeletableResourceInfo → Result Graph
  unfolding delete_resource
  add_delete_resources_ops plan [] = ok plan
  add_delete_resources_ops plan (info ∷ infos) = do
    plan' ← (if info.must_delete then delete_resource plan info else ok plan)
    add_delete_resources_ops plan' infos

-- The stage of an info, or its sub-stage if the resource has a weight.
unfoldable pub install_stage : Stage → Option IntPtr → Stage
install_stage stage none = stage
install_stage stage (some weight) = sub_stage_weighted stage weight.value

add_external_dependencies : ChainBuilder → Stage → List ExternalDependency → Result ChainBuilder
add_external_dependencies chain stage [] = ok chain
add_external_dependencies chain stage (dep ∷ deps) = do
  chain₁ ←
      add_staged chain
        (new_operation type_track_presence category_track 0 (track_presence dep.meta)) stage
  chain₂ ← skip_on_duplicate chain₁
  add_external_dependencies chain₂ stage deps

-- The switch on MustInstall.
add_deploy_op :
    ChainBuilder → InstallableResourceInfo → Stage → ResourceInstallType → Result ChainBuilder
add_deploy_op chain info stage install_create =
    add_staged chain
      (new_operation type_create category_resource info.iteration
        (create info.local_resource.spec info.local_resource.default_replicas_on_creation))
      stage
add_deploy_op chain info stage install_recreate =
    add_staged chain
      (new_operation type_recreate category_resource info.iteration (
        recreate info.local_resource.spec info.local_resource.delete_propagation
          info.local_resource.default_replicas_on_creation))
      stage
add_deploy_op chain info stage install_update =
    add_staged chain
      (new_operation type_update category_resource info.iteration (update info.local_resource.spec))
      stage
add_deploy_op chain info stage install_apply =
    add_staged chain
      (new_operation type_apply category_resource info.iteration (apply info.local_resource.spec))
      stage
add_deploy_op chain info stage install_none = ok chain

unfoldable pub track_readiness_op : InstallableResourceInfo → Operation
track_readiness_op info = new_operation type_track_readiness category_track info.iteration (
    track_readiness (record {
      resource_meta = info.meta;
      fail_mode = info.fail_mode;
      failures_allowed = res.failures_allowed;
      ignore_logs = res.skip_logs;
      ignore_logs_for_containers = res.skip_logs_for_containers;
      ignore_logs_by_regex = res.skip_logs_regex;
      ignore_logs_by_regex_for_containers = res.skip_logs_regex_for_containers;
      ignore_readiness_probe_fails_by_container_name =
          res.ignore_readiness_probe_fails_for_containers;
      no_activity_timeout = res.no_activity_timeout;
      save_events = res.show_service_messages;
      save_logs_by_regex = res.log_regex;
      save_logs_by_regex_for_containers = res.log_regexes_for_containers;
      save_logs_only_for_containers = res.show_logs_only_for_containers;
      save_logs_only_for_number_of_replicas = res.show_logs_only_for_number_of_replicas;
    }))
  where
    res : InstallableResource
    res = info.local_resource

unfoldable pub is_install_none : ResourceInstallType → Bool
is_install_none install_none = true
is_install_none _ = false

add_track_op : ChainBuilder → InstallableResourceInfo → Stage → Result ChainBuilder
add_track_op chain info stage =
    if info.must_track_readiness then add_staged chain (track_readiness_op info) stage else ok chain

add_cleanup_ops : ChainBuilder → InstallableResourceInfo → Result ChainBuilder
add_cleanup_ops chain info =
    if info.must_delete_on_successful_install
    then (do
      chain' ←
          add_staged chain
            (new_operation type_delete category_resource info.iteration
              (delete info.meta info.local_resource.delete_propagation))
            info.stage_delete_on_successful_install
      add_staged chain'
          (new_operation type_track_absence category_track info.iteration (track_absence info.meta))
          info.stage_delete_on_successful_install)
    else ok chain

-- The chain of one info in addInstallResourceOps.
unfoldable pub install_chain : InstallableResourceInfo → Result ChainBuilder
unfolding add_external_dependencies add_deploy_op add_track_op add_cleanup_ops is_install_none
    install_stage
install_chain info = do
  let stage = install_stage info.stage info.local_resource.weight
  chain₁ ←
      (if not (is_install_none info.must_install)
        then add_external_dependencies [] stage info.local_resource.external_dependencies
        else ok [])
  chain₂ ← add_deploy_op chain₁ info stage info.must_install
  chain₃ ← add_track_op chain₂ info stage
  add_cleanup_ops chain₃ info

unfoldable pub add_install_resource_ops :
    (lib : GraphLib) → lib.Graph → List InstallableResourceInfo → Result lib.Graph
unfolding install_chain
add_install_resource_ops lib plan [] = ok plan
add_install_resource_ops lib plan (info ∷ infos) = do
  chain ← install_chain info
  plan' ← wrap_err "do add chain operations" (do_chain lib plan chain)
  add_install_resource_ops lib plan' infos
