-- ===== src/Plan/Build/Failure/Missing.antt =====
-- BuildFailurePlan (pkg/plan/plan_build.go) on a failed plan without an operation that it looks up.
use mathlib.Core.List.Memᴰ
use mathlib.Core.Logic.{⊎_elim}
use nelm.Base.{
  true, none, List, [], ◌∷◌, Memᴰ, ◌≡◌, ◌≢◌, refl, subst, Result, ok, wrap_err, must, if◌then◌else◌,
  >>=-eq-ok, wrap_err-eq-ok,
}
use nelm.Release.{HelmRelease}
use nelm.Plan.Operation.{config_id, id}
use nelm.Plan.Info.{InstallableResourceInfo, ReleaseInfo}
use nelm.Plan.Optimize.{GraphEdits, IsGraphEdits, squash_operation}
use nelm.Plan.Optimize.Squash.{squash_operation-gone}
use nelm.Plan.Build.Failure.{
  failed_tracking_id, add_failure_release_operations, add_failure_resource_operation,
  add_failure_resource_operations, build_failure_graph,
}
use nelm.Plan.Graph.{GraphLib, IsGraphLib}
use nelm.Plan.Build.{new_operation}
use nelm.Plan.Build.Stages.{add_main_stages}
use nelm.Plan.Build.Resources.{track_readiness_op}

module _ (lib : GraphLib) (copy : HelmRelease → Result HelmRelease) (failed_plan : lib.Graph) where
  open lib use {Graph, new, vertex}

  resource_operations-missing :
      (plan : Graph) (infos : List InstallableResourceInfo) (info : InstallableResourceInfo)
      (g : Graph)
      → Memᴰ info infos
      → info.must_delete_on_failed_install ≡ true
      → vertex failed_plan (failed_tracking_id info) ≡ none
      → add_failure_resource_operations lib failed_plan plan infos ≢ ok g
  unfolding add_failure_resource_operations add_failure_resource_operation
  resource_operations-missing plan [] info g m must gone h = Memᴰ.not-nil m
  resource_operations-missing plan (other ∷ infos) info g m must gone h =
      let (plan', e, rest) =
        >>=-eq-ok
          (if other.must_delete_on_failed_install
            then add_failure_resource_operation lib failed_plan plan other
            else ok plan)
          _ h in
      ⊎_elim
        (λ same. absurd (
          first plan' other (subst (λ k. k.must_delete_on_failed_install ≡ true) same must)
            (subst (λ k. vertex failed_plan (failed_tracking_id k) ≡ none) same gone) e))
        (λ later_on. resource_operations-missing plan' infos info g later_on must gone rest)
        (Memᴰ.cases_cons m)
    where
      first :
          (plan' : Graph) (k : InstallableResourceInfo)
          → k.must_delete_on_failed_install ≡ true
          → vertex failed_plan (failed_tracking_id k) ≡ none
          → (if k.must_delete_on_failed_install
              then add_failure_resource_operation lib failed_plan plan k
              else ok plan)
            ≢ ok plan'
      first plan' k must gone e = absurd (cc (rw (must, gone) at e))

  -- BuildFailurePlan never succeeds when a resource is to be deleted on a failure and the failed plan
  -- has no operation that tracks its readiness: the lookup panics.
  pub build_failure_graph-missing :
      (inst_infos : List InstallableResourceInfo) (release_infos : List ReleaseInfo)
      (info : InstallableResourceInfo) (g : Graph)
      → Memᴰ info inst_infos
      → info.must_delete_on_failed_install ≡ true
      → vertex failed_plan (failed_tracking_id info) ≡ none
      → build_failure_graph lib copy failed_plan inst_infos release_infos ≢ ok g
  unfolding build_failure_graph
  build_failure_graph-missing inst_infos release_infos info g m must gone h =
      let (g₁, e₁, h₁) = >>=-eq-ok (wrap_err "add main stages" (add_main_stages lib new)) _ h in
      let (g₂, e₂, h₂) =
        >>=-eq-ok
          (wrap_err "add failure release operations"
            (add_failure_release_operations lib copy failed_plan g₁ release_infos))
          _ h₁ in
      resource_operations-missing g₂ inst_infos info g m must gone
        (wrap_err-eq-ok _ (add_failure_resource_operations lib failed_plan g₂ inst_infos) h₂)

module _ (lib : GraphLib) (laws : IsGraphLib lib) (edits : GraphEdits lib)
    (edit_laws : IsGraphEdits lib edits) (copy : HelmRelease → Result HelmRelease) where
  open lib use {Graph}

  -- A plan whose tracking of a resource's readiness was squashed, the way Optimize does it with
  -- noFinalTracking, has no failure plan if the resource is to be deleted on a failure.
  pub build_failure_graph-squashed :
      (before failed_plan : Graph) (inst_infos : List InstallableResourceInfo)
      (release_infos : List ReleaseInfo) (info : InstallableResourceInfo) (g : Graph)
      → squash_operation lib edits before (track_readiness_op info) ≡ ok failed_plan
      → Memᴰ info inst_infos
      → info.must_delete_on_failed_install ≡ true
      → build_failure_graph lib copy failed_plan inst_infos release_infos ≢ ok g
  unfolding id track_readiness_op new_operation failed_tracking_id config_id
  build_failure_graph-squashed before failed_plan inst_infos release_infos info g squash m must =
      build_failure_graph-missing lib copy failed_plan inst_infos release_infos info g m must (
        subst (λ i. lib.vertex failed_plan i ≡ none) (tracking_id info)
          (squash_operation-gone lib laws edits edit_laws before failed_plan
            (track_readiness_op info) squash))
    where
      tracking_id :
          (info : InstallableResourceInfo) → id (track_readiness_op info) ≡ failed_tracking_id info
      tracking_id info = refl
