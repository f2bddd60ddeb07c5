-- ===== src/Plan/Infos/Deletions.antt =====
-- pkg/plan/resource_info.go, buildDeletableResourceInfo, orphaned and the two decisions about the
-- deletion of an installed resource, with ResolveResourcePolicies of pkg/resource/resource.go. What
-- the cluster answers (KubeClienter.Get, a nil object or a nil error being none) and the tests
-- kube.IsNotFoundErr and kube.IsNoSuchKindErr are parameters.
pub mod KeptNamespace
pub mod Marked
use nelm.Base.{
  String, Bool, true, false, Option, none, some, List, ◌==◌, ◌||◌, not, Result, ok, err, panic, Err,
  wrap, if◌then◌else◌, filter_by, contains, length, nat_eq,
}
use nelm.Common.{
  DeployType, uninstall, Stage, ResourcePolicy, policy_skip_delete, ownership_anyone,
  stage_pre_pre_uninstall, stage_uninstall,
}
use nelm.Spec.{ResourceMeta, Unstructured, meta_from_unstructured}
use nelm.Resource.{InstallableResource, DeletableResource}
use nelm.Plan.Info.{ResourceInstallType, DeletableResourceInfo}
use nelm.Resource.Metadata.{find_by_key_pattern, resource_policies_of, validate_resource_policy}
use nelm.Plan.Build.Resources.{is_install_none}

-- The policies of the manifest, or else skip-delete if the live object has it.
unfoldable pub resolve_resource_policies :
    InstallableResource → Option ResourceMeta → String → List ResourcePolicy
resolve_resource_policies local_res none release_namespace = local_res.resource_policies
resolve_resource_policies local_res (some live_meta) release_namespace =
    if not (nat_eq (length local_res.resource_policies) 0)
    then local_res.resource_policies
    else filter_by (λ p. p == policy_skip_delete) (resource_policies_of live_meta release_namespace)

unfoldable pub forbids_deletion : Result (Unit {0}) → List ResourcePolicy → Bool
forbids_deletion (ok _) policies = contains policies policy_skip_delete
forbids_deletion (err _) policies = true
forbids_deletion panic policies = true

-- The annotations of the live object are invalid, or they forbid its deletion.
unfoldable pub live_forbids : ResourceMeta → String → Bool
unfolding forbids_deletion
live_forbids live_meta release_namespace =
    forbids_deletion (validate_resource_policy live_meta)
      (resource_policies_of live_meta release_namespace)

found_forbids : Option ResourceMeta → String → Bool
unfolding live_forbids
found_forbids none release_namespace = false
found_forbids (some live_meta) release_namespace = live_forbids live_meta release_namespace

is_found : Option ResourceMeta → Bool
is_found none = false
is_found (some _) = true

unfoldable pub must_delete_on_failed_deploy :
    InstallableResource
    → Option ResourceMeta
    → ResourceInstallType
    → String
    → (must_track skipped_by_policy : Bool) → Bool
unfolding found_forbids is_install_none
must_delete_on_failed_deploy res get_meta t release_namespace must_track skipped_by_policy =
    if skipped_by_policy
      || not res.delete_on_failed
      || contains res.resource_policies policy_skip_delete
      || is_install_none t
      || not must_track
    then false
    else not (found_forbids get_meta release_namespace)

unfoldable pub must_delete_on_successful_deploy :
    InstallableResource → Option ResourceMeta → ResourceInstallType → String → Bool → Bool
unfolding found_forbids is_install_none is_found
must_delete_on_successful_deploy res get_meta t release_namespace skipped_by_policy =
    if skipped_by_policy
      || not res.delete_on_succeeded
      || contains res.resource_policies policy_skip_delete
    then false
    else if found_forbids get_meta release_namespace
    then false
    else if is_install_none t
    then is_found get_meta
    else true

-- The entry that a key pattern finds is absent or has another value.
differs : Option (String × String) → String → Bool
differs none value = true
differs (some (_, found)) value = not (found == value)

unfoldable pub orphaned : ResourceMeta → (release_name release_namespace : String) → Bool
unfolding differs
orphaned meta release_name release_namespace =
    if differs (find_by_key_pattern meta.annotations "meta.helm.sh/release-name") release_name
    then true
    else if differs (find_by_key_pattern meta.annotations "meta.helm.sh/release-namespace")
        release_namespace
    then true
    else if differs (find_by_key_pattern meta.labels "app.kubernetes.io/managed-by") "Helm"
    then true
    else false

-- What the live object says.
abbrev pub live_meta_of : DeletableResource → String → Unstructured → ResourceMeta
live_meta_of local_res release_namespace obj =
    meta_from_unstructured obj release_namespace local_res.meta.file_path

unfoldable pub no_delete_info : DeletableResource → Stage → DeletableResourceInfo
no_delete_info local_res stage = record {
  meta = local_res.meta;
  get_result = none;
  local_resource = local_res;
  must_delete = false;
  must_track_absence = false;
  stage = stage;
}

unfoldable pub deletion_stage : DeployType → Stage
deletion_stage uninstall = stage_uninstall
deletion_stage _ = stage_pre_pre_uninstall

module _ (get : ResourceMeta → Option Unstructured × Option Err)
    (is_not_found is_no_such_kind : Err → Bool) where
  -- The end of the function, for an object that is in the cluster.
  unfoldable pub found_info :
      DeletableResource
      → DeletableResourceInfo
      → (release_name release_namespace : String) → Unstructured
      → DeletableResourceInfo
  unfolding live_forbids
  found_info local_res no_delete release_name release_namespace get_obj =
      let get_meta = live_meta_of local_res release_namespace get_obj in
      if live_forbids get_meta release_namespace
      then no_delete
      else if orphaned get_meta release_name release_namespace
      then no_delete
      else record no_delete { must_delete = true; must_track_absence = true }

  -- The function from the call of Get on. Without an object and an error the code reads a nil object.
  answered_info :
      DeletableResource
      → DeletableResourceInfo
      → (release_name release_namespace : String) → Option Unstructured × Option Err
      → Result DeletableResourceInfo
  unfolding found_info
  answered_info local_res no_delete release_name release_namespace (get_obj, some get_err) =
      if is_not_found get_err || is_no_such_kind get_err
      then ok (record no_delete { get_result = get_obj })
      else err (wrap "get resource" get_err)
  answered_info local_res no_delete release_name release_namespace (none, none) = panic
  answered_info local_res no_delete release_name release_namespace (some get_obj, none) = ok (
      found_info local_res (record no_delete { get_result = some get_obj }) release_name
        release_namespace get_obj)

  unfoldable pub build_deletable_resource_info :
      DeletableResource
      → DeployType
      → (release_name release_namespace : String) → Result DeletableResourceInfo
  unfolding answered_info no_delete_info
  build_deletable_resource_info local_res deploy_type release_name release_namespace =
      if contains local_res.resource_policies policy_skip_delete
        || local_res.ownership == ownership_anyone
      then ok (no_delete_info local_res (deletion_stage deploy_type))
      else answered_info local_res (no_delete_info local_res (deletion_stage deploy_type))
          release_name release_namespace (get local_res.meta)
