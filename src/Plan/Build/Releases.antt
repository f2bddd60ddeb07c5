-- ===== src/Plan/Build/Releases.antt =====
-- pkg/plan/plan_build.go: the operations on releases.
pub mod Placed
use nelm.Base.{List, [], ◌∷◌, Result, ok, wrap_err, ◌>>=◌, must}
use nelm.Common.{uninstall, stage_init, stage_final}
use nelm.Release.{
  Status, deployed, superseded, uninstalling, pending_install, pending_upgrade, pending_rollback,
  HelmRelease,
}
use nelm.Plan.Operation.{
  category_release, type_create_release, type_delete_release, type_update_release, create_release,
  update_release, delete_release,
}
use nelm.Plan.Info.{
  ReleaseType, release_none, release_install, release_upgrade, release_rollback, release_supersede,
  release_uninstall, release_delete, ReleaseInfo,
}
use nelm.Plan.Graph.{GraphLib}
use nelm.Plan.Build.{new_operation, do_single}

module _ (lib : GraphLib) where
  open lib use {Graph}

  -- copystructure.Copy of a release is the release itself, or an error.
  module _ (copy : HelmRelease → Result HelmRelease) where
    -- A deep copy of the release with another status.
    unfoldable pub with_status : HelmRelease → Status → Result HelmRelease
    with_status rel status = do
      rel' ← wrap_err "deep copy release" (copy rel)
      ok (record rel' { status = status })

    unfoldable pub add_pending_and_deployed_release_ops :
        Graph → ReleaseInfo → Status → Result Graph
    unfolding with_status
    add_pending_and_deployed_release_ops plan info pending_status = do
      pending_rel ← with_status info.release pending_status
      plan₁ ← must (
          do_single lib plan
            (new_operation type_create_release category_release 0 (create_release pending_rel))
            stage_init)
      succeeded_rel ← with_status pending_rel deployed
      must (
          do_single lib plan₁
            (new_operation type_update_release category_release 0 (update_release succeeded_rel))
            stage_final)

    unfoldable pub add_supersede_release_ops : Graph → ReleaseInfo → Result Graph
    unfolding with_status
    add_supersede_release_ops plan info = do
      superseded_rel ← with_status info.release superseded
      must (
          do_single lib plan
            (new_operation type_update_release category_release 0 (update_release superseded_rel))
            stage_final)

    unfoldable pub add_uninstall_release_ops : Graph → ReleaseInfo → Result Graph
    unfolding with_status
    add_uninstall_release_ops plan info = do
      rel ← with_status info.release uninstalling
      plan₁ ← must (
          do_single lib plan
            (new_operation type_update_release category_release 0 (update_release rel)) stage_init)
      must (
          do_single lib plan₁
            (new_operation type_delete_release category_release 0
              (delete_release rel.name rel.namespace rel.version))
            stage_final)

    unfoldable pub add_delete_release_ops : Graph → ReleaseInfo → Result Graph
    add_delete_release_ops plan info = must (
        do_single lib plan
          (new_operation type_delete_release category_release 0
            (delete_release info.release.name info.release.namespace info.release.version))
          stage_final)

    -- The case of addReleaseOperations for one info.
    pub add_release_operation : Graph → ReleaseInfo → ReleaseType → Result Graph
    unfolding add_pending_and_deployed_release_ops add_supersede_release_ops
        add_uninstall_release_ops add_delete_release_ops
    add_release_operation plan info release_install =
        wrap_err "add pending/deployed ops for release install"
          (add_pending_and_deployed_release_ops plan info pending_install)
    add_release_operation plan info release_upgrade =
        wrap_err "add pending/deployed ops for release upgrade"
          (add_pending_and_deployed_release_ops plan info pending_upgrade)
    add_release_operation plan info release_rollback =
        wrap_err "add pending/deployed ops for release rollback"
          (add_pending_and_deployed_release_ops plan info pending_rollback)
    add_release_operation plan info release_supersede =
        wrap_err "add supersede ops for release" (add_supersede_release_ops plan info)
    add_release_operation plan info release_uninstall =
        wrap_err "add uninstall ops for release" (add_uninstall_release_ops plan info)
    add_release_operation plan info release_delete = add_delete_release_ops plan info
    add_release_operation plan info release_none = ok plan

    unfoldable pub add_release_operations : Graph → List ReleaseInfo → Result Graph
    unfolding add_release_operation
    add_release_operations plan [] = ok plan
    add_release_operations plan (info ∷ infos) = do
      plan' ← add_release_operation plan info info.must
      add_release_operations plan' infos
