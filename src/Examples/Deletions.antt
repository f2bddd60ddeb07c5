-- ===== src/Examples/Deletions.antt =====
-- The deletion of a resource that is no longer in the release (pkg/plan/resource_info.go), for an
-- object that the release made, for its namespace, and the policies of annotations.
use nelm.Base.{
  trim_space, matches_pattern, split_commas, String, Bool, true, false, Option, none, some, [], ◌∷◌,
  ◌≡◌, refl, ok, Err,
}
use nelm.Common.{
  upgrade, uninstall, delete_policy_succeeded, delete_policy_failed, delete_policy_before_creation,
  policy_skip_delete, ownership_release, stage_pre_pre_uninstall,
}
use nelm.Spec.{
  GroupVersionKind, StringMap, ResourceMeta, new_resource_meta, is_release_namespace, Unstructured,
}
use nelm.Resource.{InstallableResource, DeletableResource}
use nelm.Plan.Info.{install_none, install_update, DeletableResourceInfo}
use nelm.Examples.Deployment.{job}
use nelm.Plan.Infos.Deletions.{
  must_delete_on_failed_deploy, must_delete_on_successful_deploy, resolve_resource_policies,
  orphaned, deletion_stage, build_deletable_resource_info,
}
use nelm.Plan.Infos.Deletions.Marked.{MayDelete, build_deletable_resource_info-MayDelete}
use nelm.Plan.Infos.Deletions.KeptNamespace.{build_deletable_resource_info-keeps_namespace}
use nelm.Resource.Metadata.{
  find_by_key_pattern, value_of, parse_resource_policies, annotated_policies, resource_policies_of,
  validate_resource_policy, delete_policies,
}

abbrev deployment_gvk : GroupVersionKind
deployment_gvk = record { group = "apps"; version = "v1"; kind = "Deployment" }

abbrev namespace_gvk : GroupVersionKind
namespace_gvk = record { group = ""; version = "v1"; kind = "Namespace" }

abbrev meta_of : String → GroupVersionKind → StringMap → ResourceMeta
meta_of name gvk annotations = record {
  name = name;
  namespace = "";
  gvk = gvk;
  file_path = "";
  annotations = annotations;
  labels = [];
}

abbrev old : DeletableResource
old = record {
  meta = meta_of "old" deployment_gvk [];
  auto_internal_dependencies = [];
  delete_propagation = "Foreground";
  manual_internal_dependencies = [];
  ownership = ownership_release;
  resource_policies = [];
}

abbrev live : String → GroupVersionKind → Unstructured
live name gvk = record {
  uid = "u-1";
  name = name;
  namespace = "shop";
  gvk = gvk;
  annotations =
      ("meta.helm.sh/release-name", "shop") ∷ ("meta.helm.sh/release-namespace", " shop") ∷ [];
  labels = ("app.kubernetes.io/managed-by", "Helm") ∷ [];
  content = "";
}

-- A cluster in which every name is taken by the object.
abbrev answers : Unstructured → ResourceMeta → Option Unstructured × Option Err
answers obj meta = (some obj, none)

abbrev never : Err → Bool
never e = false

abbrev deleted_info : DeletableResourceInfo
deleted_info = record {
  meta = old.meta;
  get_result = some (live "old" deployment_gvk);
  local_resource = old;
  must_delete = true;
  must_track_absence = true;
  stage = stage_pre_pre_uninstall;
}

deletes_old :
    build_deletable_resource_info
      (answers (live "old" deployment_gvk))
      never
      never
      old
      upgrade
      "shop"
      "shop"
    ≡ ok deleted_info
unfolding build_deletable_resource_info validate_resource_policy resource_policies_of
    annotated_policies value_of find_by_key_pattern new_resource_meta is_release_namespace orphaned
    deletion_stage trim_space matches_pattern split_commas
deletes_old = refl

build_deletable_resource_info-MayDelete_example :
    MayDelete (answers (live "old" deployment_gvk)) never never old "shop" "shop"
build_deletable_resource_info-MayDelete_example =
    build_deletable_resource_info-MayDelete (answers (live "old" deployment_gvk)) never never old
      upgrade "shop" "shop" deleted_info deletes_old refl

is_own : is_release_namespace "shop" namespace_gvk "shop" ≡ true
unfolding is_release_namespace
is_own = refl

abbrev namespace : DeletableResource
namespace = record old { meta = meta_of "shop" namespace_gvk [] }

build_deletable_resource_info-keeps_namespace_example :
    (info : DeletableResourceInfo) × (build_deletable_resource_info
        (answers (live "shop" namespace_gvk))
        never
        never
        namespace
        uninstall
        "shop"
        "shop"
      ≡ ok info)
    × (info.must_delete ≡ false)
build_deletable_resource_info-keeps_namespace_example =
    build_deletable_resource_info-keeps_namespace (answers (live "shop" namespace_gvk)) never never
      namespace uninstall "shop" "shop" (live "shop" namespace_gvk) refl is_own

policies_test :
    (parse_resource_policies "skip-create, keep,," ≡ "skip-create" ∷ policy_skip_delete ∷ [])
    × (delete_policies (meta_of "job" deployment_gvk (("helm.sh/hook", "pre-install") ∷ []))
        ≡ delete_policy_before_creation ∷ [])
    × (delete_policies (
          meta_of "job" deployment_gvk (
            ("helm.sh/hook", "pre-install")
            ∷ ("helm.sh/hook-delete-policy", "hook-failed,other, hook-succeeded")
            ∷ []))
        ≡ delete_policy_failed ∷ delete_policy_succeeded ∷ [])
    × (validate_resource_policy
          (meta_of "old" deployment_gvk (("werf.io/resource-policy", "keep,skip-update") ∷ []))
        ≡ ok tt)
unfolding parse_resource_policies delete_policies validate_resource_policy value_of
    find_by_key_pattern trim_space matches_pattern
policies_test = (refl, refl, refl, refl)

abbrev failing : InstallableResource
failing = record job.local_resource { delete_on_failed = true; resource_policies = [] }

abbrev live_meta : ResourceMeta
live_meta = meta_of "job" deployment_gvk []

abbrev kept_meta : ResourceMeta
kept_meta = meta_of "job" deployment_gvk (("helm.sh/resource-policy", "keep") ∷ [])

-- With and without a policy on the live object.
deletion_decisions_test :
    (must_delete_on_failed_deploy failing (some live_meta) install_update "shop" true false ≡ true)
    × (must_delete_on_failed_deploy failing (some live_meta) install_update "shop" false false
        ≡ false)
    × (must_delete_on_successful_deploy failing (some live_meta) install_none "shop" false ≡ false)
    × (resolve_resource_policies failing (some kept_meta) "shop" ≡ policy_skip_delete ∷ [])
    × (must_delete_on_failed_deploy failing (some kept_meta) install_update "shop" true false
        ≡ false)
unfolding must_delete_on_failed_deploy must_delete_on_successful_deploy resolve_resource_policies
    validate_resource_policy resource_policies_of annotated_policies parse_resource_policies
    value_of find_by_key_pattern is_release_namespace trim_space matches_pattern split_commas
deletion_decisions_test = (refl, refl, refl, refl, refl)
