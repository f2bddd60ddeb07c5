-- ===== src/Plan/Infos/Deletions/Marked.antt =====
-- buildDeletableResourceInfo of pkg/plan/resource_info.go: what it checked of a resource that it marks
-- to be deleted.
use nelm.Plan.Infos.Deletions.{
  live_meta_of, forbids_deletion, live_forbids, differs, orphaned, deletion_stage, no_delete_info,
  found_info, answered_info, build_deletable_resource_info,
}
use nelm.Base.{
  String, Bool, true, false, Option, none, some, List, ◌≡◌, refl, sym, subst, ◌==◌, ◌||◌, inl, inr,
  Result, ok, err, panic, Err, contains, arith, eq_iff, ok-injective, Bool-cases,
}
use nelm.Common.{DeployType, ResourcePolicy, policy_skip_delete, ownership_anyone}
use nelm.Spec.{StringMap, ResourceMeta, Unstructured}
use nelm.Resource.{DeletableResource}
use nelm.Plan.Info.{DeletableResourceInfo}
use nelm.Resource.Metadata.{find_by_key_pattern, resource_policies_of, validate_resource_policy}

pub forbids_deletion-false :
    (r : Result Unit) (policies : List ResourcePolicy)
    → forbids_deletion r policies ≡ false
    → (r ≡ ok tt) × (contains policies policy_skip_delete ≡ false)
unfolding forbids_deletion
forbids_deletion-false (ok tt) policies h = (refl, h)
forbids_deletion-false (err e) policies h = cc
forbids_deletion-false panic policies h = cc

-- The first entry that the pattern finds has the value.
abbrev pub Has : StringMap → String → String → Type 0
Has entries pattern value =
    (key : String) × (find_by_key_pattern entries pattern ≡ some (key, value))

differs-false :
    (o : Option (String × String)) (value : String)
    → differs o value ≡ false
    → (key : String) × (o ≡ some (key, value))
unfolding differs
differs-false none value h = cc
differs-false (some (key, found)) value h = (key, rw same refl)
  where
    same : found ≡ value
    same = (eq_iff found value).0 (ground (arith, h))

-- The three marks by which a release knows its own objects.
abbrev pub IsOfRelease : ResourceMeta → (release_name release_namespace : String) → Type 0
IsOfRelease meta release_name release_namespace =
    Has meta.annotations "meta.helm.sh/release-name" release_name
    × Has meta.annotations "meta.helm.sh/release-namespace" release_namespace
    × Has meta.labels "app.kubernetes.io/managed-by" "Helm"

orphaned-false :
    (meta : ResourceMeta) (release_name release_namespace : String)
    → orphaned meta release_name release_namespace ≡ false
    → IsOfRelease meta release_name release_namespace
unfolding orphaned
orphaned-false meta release_name release_namespace h = (
  differs-false _ release_name (ground (arith, h)),
  differs-false _ release_namespace (ground (arith, h)),
  differs-false _ "Helm" (ground (arith, h)),
)

module _ (get : ResourceMeta → Option Unstructured × Option Err)
    (is_not_found is_no_such_kind : Err → Bool) where
  -- What the deletion of a resource relies on.
  abbrev pub MayDelete : DeletableResource → (release_name release_namespace : String) → Type 0
  MayDelete res release_name release_namespace =
      (contains res.resource_policies policy_skip_delete ≡ false)
      × ((res.ownership == ownership_anyone) ≡ false)
      × ((obj : Unstructured) × (get res.meta ≡ (some obj, none))
          × (validate_resource_policy (live_meta_of res release_namespace obj) ≡ ok tt)
          × (contains
                (resource_policies_of (live_meta_of res release_namespace obj) release_namespace)
                policy_skip_delete
              ≡ false)
          × IsOfRelease (live_meta_of res release_namespace obj) release_name release_namespace)

  pub found_info-deletes :
      (res : DeletableResource) (no_delete : DeletableResourceInfo)
      (release_name release_namespace : String) (obj : Unstructured)
      → no_delete.must_delete ≡ false
      → (found_info get is_not_found is_no_such_kind res no_delete release_name release_namespace
          obj).must_delete
        ≡ true
      → (live_forbids (live_meta_of res release_namespace obj) release_namespace ≡ false)
        × (orphaned (live_meta_of res release_namespace obj) release_name release_namespace ≡ false)
  unfolding found_info
  found_info-deletes res no_delete release_name release_namespace obj unset h =
      elim (Bool-cases (live_forbids (live_meta_of res release_namespace obj) release_namespace)) [
        | inl e ↦ absurd (cc (unset, rw e at h))
        | inr e ↦
            elim (Bool-cases
              (orphaned (live_meta_of res release_namespace obj) release_name release_namespace)) [
                | inl f ↦ absurd (cc (unset, rw (e, f) at h))
                | inr f ↦ (e, f)
              ]
      ]

  answered_info-deletes :
      (res : DeletableResource) (no_delete : DeletableResourceInfo)
      (release_name release_namespace : String) (answer : Option Unstructured × Option Err)
      (info : DeletableResourceInfo)
      → no_delete.must_delete ≡ false
      → answered_info get is_not_found is_no_such_kind res no_delete release_name release_namespace
          answer
        ≡ ok info
      → info.must_delete ≡ true
      → (obj : Unstructured) × (answer ≡ (some obj, none))
        × (live_forbids (live_meta_of res release_namespace obj) release_namespace ≡ false)
        × (orphaned (live_meta_of res release_namespace obj) release_name release_namespace ≡ false)
  unfolding answered_info
  answered_info-deletes res no_delete release_name release_namespace (get_obj, some e) info unset h
        deleted =
      elim (Bool-cases (is_not_found e || is_no_such_kind e)) [
        | inl f ↦
            absurd (
              cc
                (unset, subst (λ i. i.must_delete ≡ true) (sym (ok-injective (rw f at h))) deleted))
        | inr f ↦ absurd (cc (rw f at h))
      ]
  answered_info-deletes res no_delete release_name release_namespace (none, none) info unset h
        deleted =
      cc
  answered_info-deletes res no_delete release_name release_namespace (some obj, none) info unset h
        deleted =
      let (allowed, own) =
        found_info-deletes res (record no_delete { get_result = some obj }) release_name
          release_namespace obj unset
          (subst (λ i. i.must_delete ≡ true) (sym (ok-injective h)) deleted) in
      (obj, refl, allowed, own)

  -- A resource is marked to be deleted only if neither its own policies nor those of the object in the
  -- cluster, which are valid, have skip-delete, its owner is a release, and the object in the cluster
  -- has the annotations and the label of this release.
  pub build_deletable_resource_info-MayDelete :
      (res : DeletableResource) (deploy_type : DeployType) (release_name release_namespace : String)
      (info : DeletableResourceInfo)
      → build_deletable_resource_info get is_not_found is_no_such_kind res deploy_type release_name
          release_namespace
        ≡ ok info
      → info.must_delete ≡ true
      → MayDelete res release_name release_namespace
  unfolding build_deletable_resource_info no_delete_info live_forbids
  build_deletable_resource_info-MayDelete res deploy_type release_name release_namespace info h
        deleted =
      let kept = contains res.resource_policies policy_skip_delete in
      let anyone = res.ownership == ownership_anyone in
      elim (Bool-cases (kept || anyone)) [
        | inl e ↦
            absurd (cc (subst (λ i. i.must_delete ≡ true) (sym (ok-injective (rw e at h))) deleted))
        | inr e ↦
            let (obj, answer, allowed, own) =
              answered_info-deletes res (no_delete_info res (deletion_stage deploy_type))
                release_name release_namespace (get res.meta) info refl (rw e at h) deleted in
            let (valid, no_skip) = forbids_deletion-false _ _ allowed in
            (
              ground (arith, e),
              ground (arith, e),
              (obj, answer, valid, no_skip, orphaned-false _ release_name release_namespace own),
            )
      ]
