-- ===== src/Plan/Infos/Readiness.antt =====
-- forceReadinessTrackingForReadyDependencyTargets (pkg/plan/resource_info.go): who is tracked.
use mathlib.Core.List.Memᴰ
use mathlib.Core.Logic.{⊎_elim}
use nelm.Base.{
  Bool, true, false, Option, none, some, List, [], ◌∷◌, map, Memᴰ, ◌≡◌, ◌≢◌, refl, ap, sym, ◌∙◌,
  subst, ◌==◌, ◌&&◌, ◌⊎◌, inl, inr, any, arith, eq_iff,
}
use nelm.Common.{ResourceState, absent, present, ready, Stage}
use nelm.Spec.{ResourceMatcher, match, is_crd, Unstructured}
use nelm.Resource.{fail_whole_deploy_process_immediately, InternalDependency}
use nelm.Plan.Info.{
  ResourceInstallType, install_none, install_create, install_recreate, install_update,
  install_apply, InstallableResourceInfo,
}
use nelm.Plan.Infos.{
  ready_matchers_of, ready_matchers, is_none, force_readiness, force_readiness_all,
  force_readiness_tracking_for_ready_dependency_targets,
}
use nelm.Plan.Build.Resources.{is_install_none}
use mathlib.Core.Bool.{false≢true}

ready_matchers_of-mem :
    (stage : Stage) (deps : List InternalDependency) (dep : InternalDependency)
    → Memᴰ dep deps
    → dep.resource_state ≡ ready
    → Memᴰ (dep.matcher, stage) (ready_matchers_of stage deps)
unfolding ready_matchers_of
ready_matchers_of-mem stage [] dep m e = absurd (Memᴰ.not-nil m)
ready_matchers_of-mem stage (d ∷ deps) dep m e =
    ⊎_elim
      (λ (same : dep ≡ d).
        let state : d.resource_state ≡ ready =
          ap (λ (k : InternalDependency). k.resource_state) (sym same) ∙ e in
        rw state (Memᴰ.head (ap (λ (k : InternalDependency). (k.matcher, stage)) same)))
      (λ later. widen d.resource_state (ready_matchers_of-mem stage deps dep later e))
      (Memᴰ.cases_cons m)
  where
    widen :
        (s : ResourceState)
        → Memᴰ (dep.matcher, stage) (ready_matchers_of stage deps)
        → Memᴰ
            (dep.matcher, stage)
            (elim s [
              | ready ↦ (d.matcher, stage) ∷ ready_matchers_of stage deps
              | absent ↦ ready_matchers_of stage deps
              | present ↦ ready_matchers_of stage deps
            ])
    widen ready n = Memᴰ.tail n
    widen absent n = n
    widen present n = n

ready_matchers-mem :
    (infos : List InstallableResourceInfo) (info : InstallableResourceInfo)
    (dep : InternalDependency)
    → Memᴰ info infos
    → Memᴰ dep info.local_resource.manual_internal_dependencies
    → dep.resource_state ≡ ready
    → Memᴰ (dep.matcher, info.stage) (ready_matchers infos)
unfolding ready_matchers
ready_matchers-mem [] info dep m md e = absurd (Memᴰ.not-nil m)
ready_matchers-mem (i ∷ infos) info dep m md e =
    ⊎_elim
      (λ (same : info ≡ i). Memᴰ.append_left (ready_matchers infos) (
        subst
          (λ (k : InstallableResourceInfo).
            Memᴰ (dep.matcher, info.stage)
              (ready_matchers_of k.stage k.local_resource.manual_internal_dependencies))
          same
          (ready_matchers_of-mem info.stage info.local_resource.manual_internal_dependencies dep md
            e)))
      (λ later.
        Memᴰ.append_right (ready_matchers_of i.stage i.local_resource.manual_internal_dependencies)
          (ready_matchers-mem infos info dep later md e))
      (Memᴰ.cases_cons m)

any-mem {ℓ} :
    {A : Type ℓ} (p : A → Bool) (x : A) (xs : List A) → Memᴰ x xs → p x ≡ true → any p xs ≡ true
any-mem p x [] m h = absurd (Memᴰ.not-nil m)
any-mem p x (y ∷ xs) m h =
    ⊎_elim (λ same. let there : p y ≡ true = ap p (sym same) ∙ h in rw there refl)
      (λ later. let found = any-mem p x xs later h in ground (arith, found)) (Memᴰ.cases_cons m)

-- What the pass makes of an info that it changes.
abbrev pub tracked : InstallableResourceInfo → InstallableResourceInfo
tracked info = record info {
  must_track_readiness = true;
  fail_mode = fail_whole_deploy_process_immediately;
}

touched :
    (info : InstallableResourceInfo)
    → (info.must_install ≢ install_none) ⊎ (info.get_result ≢ none)
    → (is_install_none info.must_install && is_none info.get_result) ≡ false
unfolding is_install_none is_none
touched info (inl n) = by_type info.must_install n
  where
    by_type :
        (t : ResourceInstallType)
        → t ≢ install_none
        → (is_install_none t && is_none info.get_result) ≡ false
    by_type install_none k = absurd (k refl)
    by_type install_create k = refl
    by_type install_recreate k = refl
    by_type install_update k = refl
    by_type install_apply k = refl
touched info (inr n) = by_result info.get_result n
  where
    by_result :
        (o : Option Unstructured)
        → o ≢ none
        → (is_install_none info.must_install && is_none o) ≡ false
    by_result none k = absurd (k refl)
    by_result (some u) k = ground arith

changed :
    (matchers : List (ResourceMatcher × Stage)) (info : InstallableResourceInfo)
    → is_crd info.meta.gvk ≡ false
    → (is_install_none info.must_install && is_none info.get_result) ≡ false
    → any (λ (rm : ResourceMatcher × Stage). rm.1 == info.stage && match rm.0 info.meta) matchers
      ≡ true
    → force_readiness matchers info ≡ tracked info
unfolding force_readiness
changed matchers info no_crd there found = rw (no_crd, there, found) refl

-- If an info of the release declares a dependency on the readiness of what it matches, every info of
-- the same stage that the dependency matches is tracked until it is ready, with its failure fatal,
-- unless it is a custom resource definition or neither installed nor in the cluster.
pub force_readiness_tracking-tracked :
    (infos : List InstallableResourceInfo) (info target : InstallableResourceInfo)
    (dep : InternalDependency)
    → Memᴰ info infos
    → Memᴰ dep info.local_resource.manual_internal_dependencies
    → dep.resource_state ≡ ready
    → Memᴰ target infos
    → info.stage ≡ target.stage
    → match dep.matcher target.meta ≡ true
    → is_crd target.meta.gvk ≡ false
    → (target.must_install ≢ install_none) ⊎ (target.get_result ≢ none)
    → Memᴰ (tracked target) (force_readiness_tracking_for_ready_dependency_targets infos)
unfolding force_readiness_tracking_for_ready_dependency_targets force_readiness_all
force_readiness_tracking-tracked infos info target dep mi md e mt same matches no_crd there =
    go (ready_matchers infos) (
      any-mem (λ (rm : ResourceMatcher × Stage). rm.1 == target.stage && match rm.0 target.meta)
        (dep.matcher, info.stage) (ready_matchers infos) (ready_matchers-mem infos info dep mi md e)
        (rw ((eq_iff info.stage target.stage).1 same, matches) refl))
  where
    go :
        (matchers : List (ResourceMatcher × Stage))
        → any
            (λ (rm : ResourceMatcher × Stage). rm.1 == target.stage && match rm.0 target.meta)
            matchers
          ≡ true
        → Memᴰ (tracked target) (force_readiness_all matchers infos)
    go [] found = absurd (false≢true found)
    go (m ∷ matchers) found =
        subst (λ k. Memᴰ k (map (force_readiness (m ∷ matchers)) infos))
          (changed (m ∷ matchers) target no_crd (touched target there) found)
          (Memᴰ.map (force_readiness (m ∷ matchers)) mt)
