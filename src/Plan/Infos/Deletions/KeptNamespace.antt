-- ===== src/Plan/Infos/Deletions/KeptNamespace.antt =====
-- buildDeletableResourceInfo of pkg/plan/resource_info.go on the namespace of the release, whose
-- policies resource.ResourcePolicies completes.
use nelm.Plan.Infos.Deletions.{
  live_meta_of, deletion_stage, no_delete_info, found_info, answered_info,
  build_deletable_resource_info,
}
use nelm.Plan.Infos.Deletions.Marked.{forbids_deletion-false, found_info-deletes}
use nelm.Base.{
  String, Bool, true, false, Option, none, some, List, ◌≡◌, refl, ◌==◌, ◌++◌, [], ◌∷◌, ◌||◌, inl,
  inr, ok, Err, contains, eq_iff, Bool-cases,
}
use nelm.Common.{DeployType, policy_skip_delete, ownership_anyone}
use nelm.Spec.{new_resource_meta, is_release_namespace, ResourceMeta, Unstructured}
use nelm.Resource.{DeletableResource}
use nelm.Plan.Info.{DeletableResourceInfo}
use nelm.Resource.Metadata.{annotated_policies, resource_policies_of, validate_resource_policy}

contains-snoc : (l : List String) (s : String) → contains (l ++ s ∷ []) s ≡ true
contains-snoc [] s = rw ((eq_iff s s).1 refl) refl
contains-snoc (x ∷ l) s = elim (Bool-cases (x == s)) [
  | inl e ↦ rw e refl
  | inr e ↦ rw e (contains-snoc l s)
]

-- The policies of the namespace of a release have skip-delete, whatever its annotations say.
namespace-skip_delete :
    (meta : ResourceMeta) (release_namespace : String)
    → is_release_namespace meta.name meta.gvk release_namespace ≡ true
    → contains (resource_policies_of meta release_namespace) policy_skip_delete ≡ true
unfolding resource_policies_of
namespace-skip_delete meta release_namespace own =
    let policies = annotated_policies meta in
    elim (Bool-cases (contains policies policy_skip_delete)) [
      | inl e ↦ rw (own, e) e
      | inr e ↦ rw (own, e) (contains-snoc policies policy_skip_delete)
    ]

module _ (get : ResourceMeta → Option Unstructured × Option Err)
    (is_not_found is_no_such_kind : Err → Bool) where
  -- The namespace of the release is never marked to be deleted: where the object that the cluster
  -- returned is that namespace, the function has a result, and it does not delete.
  pub build_deletable_resource_info-keeps_namespace :
      (res : DeletableResource) (deploy_type : DeployType) (release_name release_namespace : String)
      (obj : Unstructured)
      → get res.meta ≡ (some obj, none)
      → is_release_namespace obj.name obj.gvk release_namespace ≡ true
      → (info : DeletableResourceInfo) × (build_deletable_resource_info get is_not_found
            is_no_such_kind res deploy_type release_name release_namespace
          ≡ ok info)
        × (info.must_delete ≡ false)
  unfolding build_deletable_resource_info answered_info new_resource_meta
  build_deletable_resource_info-keeps_namespace res deploy_type release_name release_namespace obj
        answer own =
      let kept = contains res.resource_policies policy_skip_delete in
      let no_delete = no_delete_info res (deletion_stage deploy_type) in
      let found = record no_delete { get_result = some obj } in
      elim (Bool-cases (kept || res.ownership == ownership_anyone)) [
        | inl e ↦ (no_delete, rw e refl, refl)
        | inr e ↦ (
          found_info get is_not_found is_no_such_kind res found release_name release_namespace obj,
          rw (e, answer) refl,
          keeps found refl,
        )
      ]
    where
      keeps :
          (found : DeletableResourceInfo)
          → found.must_delete ≡ false
          → (found_info get is_not_found is_no_such_kind res found release_name release_namespace
              obj).must_delete
            ≡ false
      keeps found unset =
          let live = live_meta_of res release_namespace obj in
          elim (Bool-cases
            (found_info get is_not_found is_no_such_kind res found release_name release_namespace
              obj).must_delete) [
                | inr e ↦ e
                | inl e ↦
                    let (allowed, _) =
                      found_info-deletes get is_not_found is_no_such_kind res found release_name
                        release_namespace obj unset e in
                    let (_, no_skip) =
                      forbids_deletion-false (validate_resource_policy live)
                        (resource_policies_of live release_namespace) allowed in
                    absurd (cc (no_skip, namespace-skip_delete live release_namespace own))
              ]
