-- ===== src/Plan/Infos/Decisions.antt =====
-- pkg/plan/resource_info.go, resourceInstallType: what a release does with one resource. The
-- recognition of the API server's error on immutable fields, and the length of the patch between the
-- cleaned live object and the cleaned result of the dry apply, are parameters.
use nelm.Base.{
  ℕ, Bool, true, false, Option, none, some, List, Memᴰ, ◌≡◌, refl, sym, subst, ◌==◌, ◌&&◌, ◌||◌,
  not, inl, inr, Result, ok, err, panic, Err, message, wrap, wrap_err, ◌>>=◌, if◌then◌else◌,
  contains, contains-mem, ltb, arith, eq_iff, >>=-eq-ok, ok-injective, Bool-cases,
}
use nelm.Common.{
  Stage, ResourcePolicy, policy_skip_create, policy_skip_update, policy_skip_recreate,
  stage_pre_install, stage_pre_uninstall, stage_install, stage_uninstall, stage_post_install,
  stage_post_uninstall, stage_post_post_install, stage_post_post_uninstall, stages_ordered,
  stages_sort_handler,
}
use nelm.Spec.{is_crd, Unstructured}
use nelm.Resource.{TrackTerminationMode, non_blocking, InstallableResource}
use nelm.Plan.Info.{
  ResourceInstallType, install_none, install_create, install_recreate, install_update,
  install_apply,
}
use nelm.Plan.Build.Resources.{is_install_none}

-- dryApplyErr != nil && kube.IsImmutableErr(dryApplyErr)
is_immutable : (Err → Bool) → Option Err → Bool
is_immutable is_immutable_err none = false
is_immutable is_immutable_err (some e) = is_immutable_err e

is_error : Option Err → Bool
is_error none = false
is_error (some _) = true

immutable_error : Option Err → Err
immutable_error none =
    message "immutable fields change in resource, but recreation is not requested"
immutable_error (some e) =
    wrap "immutable fields change in resource, but recreation is not requested" e

by_patch : Bool → ℕ → ResourceInstallType × Bool
by_patch skip_update len =
    if ltb 0 len
    then if skip_update then (install_none, true) else (install_update, false)
    else (install_none, false)

-- What the policies rule out.
abbrev pub Allowed :
    (skip_create skip_update skip_recreate : Bool) → ResourceInstallType × Bool → Type 0
Allowed skip_create skip_update skip_recreate (install_none, skipped) = Unit
Allowed skip_create skip_update skip_recreate (install_create, skipped) =
    (skip_create ≡ false) × (skipped ≡ false)
Allowed skip_create skip_update skip_recreate (install_recreate, skipped) =
    (skip_recreate ≡ false) × (skipped ≡ false)
Allowed skip_create skip_update skip_recreate (install_update, skipped) =
    (skip_update ≡ false) × (skipped ≡ false)
Allowed skip_create skip_update skip_recreate (install_apply, skipped) =
    (skip_create ≡ false) × (skip_update ≡ false) × (skipped ≡ false)

by_patch-Allowed : (c u r : Bool) (len : ℕ) → Allowed c u r (by_patch u len)
unfolding by_patch
by_patch-Allowed c u r len = elim (Bool-cases (ltb 0 len)) [
  | inl e ↦ elim (Bool-cases u) [ inl f ↦ rw (e, f) tt | inr f ↦ rw (e, f) (refl, refl) ]
  | inr e ↦ rw e tt
]

module _ (is_immutable_err : Err → Bool)
    (patch_length : Unstructured → Option Unstructured → Result ℕ) where
  -- The function for a resource that is in the cluster.
  existing_install_type :
      (skip_create skip_update skip_recreate : Bool)
      → InstallableResource
      → Unstructured
      → Option Unstructured
      → Option Err
      → Result (ResourceInstallType × Bool)
  unfolding is_immutable is_error immutable_error by_patch
  existing_install_type skip_create skip_update skip_recreate local_res get_obj dry_apply_obj
        dry_apply_err =
      let immutable = is_immutable is_immutable_err dry_apply_err in
      if skip_recreate
        && (local_res.recreate
            || immutable && (local_res.recreate_on_immutable || not local_res.recreate))
      then ok (install_none, true)
      else if immutable && not local_res.recreate && not local_res.recreate_on_immutable
      then err (immutable_error dry_apply_err)
      else if local_res.recreate || immutable && local_res.recreate_on_immutable
      then ok (install_recreate, false)
      else if is_error dry_apply_err
      then if skip_create || skip_update then ok (install_none, true) else ok (install_apply, false)
      else wrap_err "compare live and dry-apply versions of resource"
          (patch_length get_obj dry_apply_obj)
        >>= λ len. ok (by_patch skip_update len)

  unfoldable pub resource_install_type :
      InstallableResource
      → Option Unstructured
      → Option Unstructured
      → Option Err
      → List ResourcePolicy
      → Result (ResourceInstallType × Bool)
  unfolding existing_install_type
  resource_install_type local_res none dry_apply_obj dry_apply_err policies =
      if contains policies policy_skip_create
      then ok (install_none, true)
      else ok (install_create, false)
  resource_install_type local_res (some get_obj) dry_apply_obj dry_apply_err policies =
      existing_install_type (contains policies policy_skip_create)
        (contains policies policy_skip_update) (contains policies policy_skip_recreate) local_res
        get_obj dry_apply_obj dry_apply_err

  existing-Allowed :
      (c u r : Bool) (res : InstallableResource) (get_obj : Unstructured)
      (dry_obj : Option Unstructured) (dry_err : Option Err) (t : ResourceInstallType × Bool)
      → existing_install_type c u r res get_obj dry_obj dry_err ≡ ok t
      → Allowed c u r t
  unfolding existing_install_type
  existing-Allowed c u r res get_obj dry_obj dry_err t h =
      let immutable = is_immutable is_immutable_err dry_err in
      elim (Bool-cases
        (r && (res.recreate || immutable && (res.recreate_on_immutable || not res.recreate)))) [
          | inl e₁ ↦ subst (Allowed c u r) (ok-injective (rw e₁ at h)) tt
          | inr e₁ ↦
              elim (Bool-cases (immutable && not res.recreate && not res.recreate_on_immutable)) [
                | inl e₂ ↦ absurd (cc (rw (e₁, e₂) at h))
                | inr e₂ ↦
                    elim (Bool-cases (res.recreate || immutable && res.recreate_on_immutable)) [
                      | inl e₃ ↦
                          subst (Allowed c u r) (ok-injective (rw (e₁, e₂, e₃) at h))
                            (ground (arith, e₁, e₃), refl)
                      | inr e₃ ↦ elim (Bool-cases (is_error dry_err)) [
                        | inl e₄ ↦ elim (Bool-cases (c || u)) [
                          | inl e₅ ↦
                              subst (Allowed c u r) (ok-injective (rw (e₁, e₂, e₃, e₄, e₅) at h)) tt
                          | inr e₅ ↦
                              subst (Allowed c u r) (ok-injective (rw (e₁, e₂, e₃, e₄, e₅) at h))
                                (ground (arith, e₅), ground (arith, e₅), refl)
                        ]
                        | inr e₄ ↦
                            let (len, _, done) =
                              >>=-eq-ok
                                (wrap_err "compare live and dry-apply versions of resource"
                                  (patch_length get_obj dry_obj))
                                _ (rw (e₁, e₂, e₃, e₄) at h) in
                            subst (Allowed c u r) (ok-injective done) (by_patch-Allowed c u r len)
                      ]
                    ]
              ]
        ]

  -- Where the decision has a result, no policy is overridden: with skip-create a resource is neither
  -- created nor applied, with skip-update neither updated nor applied, with skip-recreate not
  -- recreated; and only a resource with nothing to do counts as skipped by a policy.
  pub resource_install_type-Allowed :
      (res : InstallableResource) (get_obj dry_obj : Option Unstructured) (dry_err : Option Err)
      (policies : List ResourcePolicy) (t : ResourceInstallType × Bool)
      → resource_install_type res get_obj dry_obj dry_err policies ≡ ok t
      → Allowed
          (contains policies policy_skip_create)
          (contains policies policy_skip_update)
          (contains policies policy_skip_recreate)
          t
  unfolding resource_install_type
  resource_install_type-Allowed res none dry_obj dry_err policies t h =
      elim (Bool-cases (contains policies policy_skip_create)) [
        | inl e ↦ subst (Allowed _ _ _) (ok-injective (rw e at h)) tt
        | inr e ↦ subst (Allowed _ _ _) (ok-injective (rw e at h)) (e, refl)
      ]
  resource_install_type-Allowed res (some get_obj) dry_obj dry_err policies t h =
      existing-Allowed (contains policies policy_skip_create) (contains policies policy_skip_update)
        (contains policies policy_skip_recreate) res get_obj dry_obj dry_err t h

-- mustTrackReadiness
unfoldable pub is_non_blocking : TrackTerminationMode → Bool
is_non_blocking non_blocking = true
is_non_blocking _ = false

unfoldable pub must_track_readiness :
    InstallableResource
    → ResourceInstallType
    → (exists prev_rel_failed : Bool) → (must_delete_on_successful_install skipped_by_policy : Bool)
    → Bool
unfolding is_non_blocking
must_track_readiness res t exists prev_rel_failed must_delete skipped_by_policy =
    if skipped_by_policy
      || is_crd res.spec.unstruct.gvk
      || is_non_blocking res.track_termination_mode
    then false
    else if is_install_none t
    then exists && (prev_rel_failed || must_delete)
    else true

unfoldable pub stage_delete_on_successful_install : Bool → Stage → Result Stage
stage_delete_on_successful_install should_delete install_stg =
    if not should_delete
    then ok ""
    else if install_stg == stage_pre_install
    then ok stage_pre_uninstall
    else if install_stg == stage_install
    then ok stage_uninstall
    else if install_stg == stage_post_install
    then ok stage_post_uninstall
    else if install_stg == stage_post_post_install
    then ok stage_post_post_uninstall
    else panic

-- Where a resource is deleted after its installation, the deletion is in a later stage.
pub stage_delete_on_successful_install-later :
    (install_stg delete_stg : Stage)
    → stage_delete_on_successful_install true install_stg ≡ ok delete_stg
    → Memᴰ install_stg stages_ordered
      × Memᴰ delete_stg stages_ordered
      × (stages_sort_handler install_stg delete_stg ≡ true)
unfolding stage_delete_on_successful_install stages_sort_handler
stage_delete_on_successful_install-later s d h = elim (Bool-cases (s == stage_pre_install)) [
  | inl e ↦ later s stage_pre_install stage_pre_uninstall d e refl refl refl (rw e at h)
  | inr e₁ ↦ elim (Bool-cases (s == stage_install)) [
    | inl e ↦ later s stage_install stage_uninstall d e refl refl refl (rw (e₁, e) at h)
    | inr e₂ ↦ elim (Bool-cases (s == stage_post_install)) [
      | inl e ↦
          later s stage_post_install stage_post_uninstall d e refl refl refl (rw (e₁, e₂, e) at h)
      | inr e₃ ↦ elim (Bool-cases (s == stage_post_post_install)) [
        | inl e ↦
            later s stage_post_post_install stage_post_post_uninstall d e refl refl refl
              (rw (e₁, e₂, e₃, e) at h)
        | inr e₄ ↦ absurd (cc (rw (e₁, e₂, e₃, e₄) at h))
      ]
    ]
  ]
]
  where
    later :
        (s a b d : Stage)
        → (s == a) ≡ true
        → contains stages_ordered a ≡ true
        → contains stages_ordered b ≡ true
        → stages_sort_handler a b ≡ true
        → ok b ≡ ok d
        → Memᴰ s stages_ordered × Memᴰ d stages_ordered × (stages_sort_handler s d ≡ true)
    later s a b d e ma mb sorted h =
        let same : a ≡ s = sym ((eq_iff s a).0 e) in
        let goal : b ≡ d = ok-injective h in
        (
          subst (λ k. Memᴰ k stages_ordered) same (contains-mem stages_ordered a ma),
          subst (λ k. Memᴰ k stages_ordered) goal (contains-mem stages_ordered b mb),
          subst (λ k. stages_sort_handler k d ≡ true) same
              (subst (λ k. stages_sort_handler a k ≡ true) goal sorted),
        )
