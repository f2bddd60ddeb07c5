-- ===== src/Plan/Build/Failure.antt =====
-- pkg/plan/plan_build.go: BuildFailurePlan up to the optimisation of the plan. The failed plan is a
-- graph whose operations have the statuses that its execution gave them.
pub mod Marked
pub mod Missing
use nelm.Base.{
  String, Bool, true, false, List, [], ◌∷◌, ◌==◌, ◌&&◌, not, Result, ok, panic, wrap_err, ◌>>=◌,
  must, if◌then◌else◌, any, nat_eq,
}
use nelm.Common.{stage_init, stage_uninstall}
use nelm.Spec.{meta_id}
use nelm.Release.{failed, HelmRelease, release_id}
use nelm.Plan.Operation.{
  category_resource, category_track, category_release, OperationStatus, status_completed,
  status_failed, OperationType, type_delete, type_track_absence, type_track_readiness,
  type_update_release, operation_version, OperationConfig, delete, track_absence, create_release,
  update_release, Operation, operation_id,
}
use nelm.Plan.Info.{InstallableResourceInfo, info_id, ReleaseInfo}
use nelm.Plan.Graph.{GraphLib}
use nelm.Plan.Chain.{must_find, operations, do_chain}
use nelm.Plan.Build.{new_operation, add_staged, do_single}
use nelm.Plan.Build.Stages.{add_main_stages}
use nelm.Plan.Build.Releases.{with_status}

is_completed : OperationStatus → Bool
is_completed status_completed = true
is_completed _ = false

pub is_failed : OperationStatus → Bool
is_failed status_failed = true
is_failed _ = false

is_type_delete : OperationType → Bool
is_type_delete type_delete = true
is_type_delete _ = false

-- Whether the config creates or updates the release.
puts_release : HelmRelease → OperationConfig → Bool
puts_release rel (create_release r) =
    release_id r.namespace r.name r.version == release_id rel.namespace rel.name rel.version
puts_release rel (update_release r) =
    release_id r.namespace r.name r.version == release_id rel.namespace rel.name rel.version
puts_release rel _ = false

-- The predicate of lo.Find in addFailureReleaseOperations.
unfoldable pub created_release : HelmRelease → Operation → Bool
unfolding is_completed puts_release
created_release rel op = if is_completed op.status then puts_release rel op.config else false

-- Whether the config deletes the resource; the assertion panics on another config.
deletes_resource : String → OperationConfig → Result Bool
deletes_resource i (delete meta _) = ok (meta_id meta == i)
deletes_resource i _ = panic

-- The predicate of lo.Find in addFailureResourceOperations.
cleans_up : InstallableResourceInfo → Operation → Result Bool
unfolding deletes_resource is_type_delete
cleans_up info op =
    if is_type_delete op.type && nat_eq op.iteration info.iteration
    then deletes_resource (info_id info) op.config
    else ok false

find_clean_up : InstallableResourceInfo → List Operation → Result Operation
unfolding cleans_up
find_clean_up info [] = panic
find_clean_up info (op ∷ ops) = do
  found ← cleans_up info op
  let rest = find_clean_up info ops in if found then ok op else rest

unfoldable pub failed_tracking_id : InstallableResourceInfo → String
failed_tracking_id info =
    operation_id type_track_readiness (operation_version type_track_readiness) info.iteration
      (info_id info)

-- Whether the clean-up after a successful installation has already deleted the resource.
unfoldable pub already_deleted : InstallableResourceInfo → List Operation → Result Bool
unfolding find_clean_up is_completed
already_deleted info ops =
    if info.must_delete_on_successful_install
    then find_clean_up info ops >>= (λ op. ok (is_completed op.status))
    else ok false

module _ (lib : GraphLib) where
  open lib use {Graph, new, vertex}

  module _ (copy : HelmRelease → Result HelmRelease) where
    unfoldable pub add_failed_release_ops : Graph → ReleaseInfo → Result Graph
    unfolding with_status
    add_failed_release_ops plan info = do
      failed_rel ← with_status lib copy info.release failed
      must (
          do_single lib plan
            (new_operation type_update_release category_release 0 (update_release failed_rel))
            stage_init)

    -- The body of the loop of addFailureReleaseOperations.
    pub add_failure_release_operation : Graph → Graph → ReleaseInfo → Result Graph
    unfolding add_failed_release_ops created_release
    add_failure_release_operation failed_plan plan info =
        if info.must_fail_on_failed_deploy
        then (operations lib failed_plan >>= (λ ops.
            if any (created_release info.release) ops
            then wrap_err "add failed release ops for release" (add_failed_release_ops plan info)
            else ok plan))
        else ok plan

    unfoldable pub add_failure_release_operations : Graph → Graph → List ReleaseInfo → Result Graph
    unfolding add_failure_release_operation
    add_failure_release_operations failed_plan plan [] = ok plan
    add_failure_release_operations failed_plan plan (info ∷ infos) = do
      plan' ← add_failure_release_operation failed_plan plan info
      add_failure_release_operations failed_plan plan' infos

  -- The chain that deletes a resource of a failed installation.
  pub delete_failed_resource : Graph → InstallableResourceInfo → Result Graph
  delete_failed_resource plan info = do
    chain ←
        add_staged []
          (new_operation type_delete category_resource info.iteration
            (delete info.meta info.local_resource.delete_propagation))
          stage_uninstall
    chain' ←
        add_staged chain
          (new_operation type_track_absence category_track info.iteration (track_absence info.meta))
          stage_uninstall
    wrap_err "do add chain operations" (do_chain lib plan chain')

  -- The rest of the loop's body, once the operation that tracks the resource is found.
  pub delete_unless_done : Graph → Graph → InstallableResourceInfo → Operation → Result Graph
  unfolding is_failed already_deleted delete_failed_resource
  delete_unless_done failed_plan plan info tracking =
      if not (is_failed tracking.status)
      then ok plan
      else (operations lib failed_plan
          >>= already_deleted info
          >>= (λ done. if done then ok plan else delete_failed_resource plan info))

  -- The body of the loop of addFailureResourceOperations, for an info that must be deleted.
  pub add_failure_resource_operation : Graph → Graph → InstallableResourceInfo → Result Graph
  unfolding delete_unless_done failed_tracking_id
  add_failure_resource_operation failed_plan plan info = do
    tracking ← must_find (vertex failed_plan (failed_tracking_id info))
    delete_unless_done failed_plan plan info tracking

  unfoldable pub add_failure_resource_operations :
      Graph → Graph → List InstallableResourceInfo → Result Graph
  unfolding add_failure_resource_operation
  add_failure_resource_operations failed_plan plan [] = ok plan
  add_failure_resource_operations failed_plan plan (info ∷ infos) = do
    plan' ←
        (if info.must_delete_on_failed_install
          then add_failure_resource_operation failed_plan plan info
          else ok plan)
    add_failure_resource_operations failed_plan plan' infos

  -- The graph that BuildFailurePlan hands to Optimize.
  unfoldable pub build_failure_graph :
      (HelmRelease → Result HelmRelease)
      → Graph
      → List InstallableResourceInfo
      → List ReleaseInfo
      → Result Graph
  unfolding add_failure_release_operations add_failure_resource_operations add_main_stages
  build_failure_graph copy failed_plan inst_infos release_infos = do
    p₁ ← wrap_err "add main stages" (add_main_stages lib new)
    p₂ ←
        wrap_err "add failure release operations"
          (add_failure_release_operations copy failed_plan p₁ release_infos)
    wrap_err "add failure resource operations"
        (add_failure_resource_operations failed_plan p₂ inst_infos)
