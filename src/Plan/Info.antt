-- ===== src/Plan/Info.antt =====
-- The data that a plan is built from (pkg/plan/resource_info.go and release_info.go).
use nelm.Base.{String, ℕ, Bool, Option, Err}
use nelm.Common.{Stage}
use nelm.Spec.{ResourceMeta, Unstructured, meta_id}
use nelm.Resource.{InstallableResource, DeletableResource, FailMode}
use nelm.Release.{HelmRelease}

pub data ResourceInstallType : Type 0 where
  install_none install_create install_recreate install_update install_apply : ResourceInstallType

pub record InstallableResourceInfo : Type 0 where
  pub meta : ResourceMeta
  pub local_resource : InstallableResource
  pub get_result : Option Unstructured
  pub dry_apply_result : Option Unstructured
  pub dry_apply_err : Option Err
  pub must_install : ResourceInstallType
  pub must_delete_on_successful_install : Bool
  pub must_delete_on_failed_install : Bool
  pub must_track_readiness : Bool
  pub fail_mode : FailMode
  pub stage : Stage
  pub stage_delete_on_successful_install : Stage
  pub iteration : ℕ

pub record DeletableResourceInfo : Type 0 where
  pub meta : ResourceMeta
  pub get_result : Option Unstructured
  pub local_resource : DeletableResource
  pub must_delete : Bool
  pub must_track_absence : Bool
  pub stage : Stage

-- info.ID(), by the embedded ResourceMeta
abbrev pub info_id : InstallableResourceInfo → String
info_id info = meta_id info.meta

pub data ReleaseType : Type 0 where
  release_none release_install release_upgrade release_rollback release_supersede release_uninstall
        release_delete :
      ReleaseType

pub record ReleaseInfo : Type 0 where
  pub release : HelmRelease
  pub must : ReleaseType
  pub must_fail_on_failed_deploy : Bool
