-- ===== src/Plan/Execute/Exec/Fits.antt =====
-- execOp (pkg/plan/plan_execute.go) on the operations that BuildPlan makes: the assertion on the
-- config's type holds.
use nelm.Base.{
  String, ℕ, Bool, true, false, Option, List, [], ◌∷◌, ◌++◌, map, Memᴰ, ◌≡◌, ◌≢◌, refl, sym, subst,
  Result, ok, err, panic, wrap_err, if◌then◌else◌, All, All-at, ℤ,
}
use nelm.Common.{Stage}
use nelm.Spec.{GroupVersionKind, ResourceMeta, ResourceSpec}
use nelm.Resource.{ExternalDependency}
use nelm.Release.{HelmRelease}
use nelm.Plan.Operation.{
  OperationType, type_apply, type_create, type_create_release, type_delete, type_delete_release,
  type_noop, type_recreate, type_track_absence, type_track_presence, type_track_readiness,
  type_update, type_update_release, TrackReadiness, OperationConfig, noop, create, recreate, update,
  apply, delete, track_readiness, track_presence, track_absence, create_release, update_release,
  delete_release, Operation,
}
use nelm.Plan.Info.{
  ResourceInstallType, install_none, install_create, install_recreate, install_update,
  install_apply, InstallableResourceInfo,
}
use nelm.Plan.Execute.Exec.{
  ◌>>=◌, Act, proceed, wrapped, Calls, Timeouts, get_namespace, track_absence_of, exec_op_typed,
  exec_op,
}
use nelm.Plan.Chain.{BuilderStep}
use nelm.Plan.Build.{new_operation}
use nelm.Plan.Build.Resources.{track_readiness_op}
use nelm.Plan.Chain.Builder.{skipping_step}
use nelm.Plan.Build.Resources.InstallSteps.{
  presence_op, stage_of, presence_steps, deploy_steps, track_steps, cleanup_steps, install_steps,
}

-- The type of the operation that a config belongs to.
unfoldable pub config_type : OperationConfig → OperationType
config_type (noop _) = type_noop
config_type (create _ _) = type_create
config_type (recreate _ _ _) = type_recreate
config_type (update _) = type_update
config_type (apply _) = type_apply
config_type (delete _ _) = type_delete
config_type (track_readiness _) = type_track_readiness
config_type (track_presence _) = type_track_presence
config_type (track_absence _) = type_track_absence
config_type (create_release _) = type_create_release
config_type (update_release _) = type_update_release
config_type (delete_release _ _ _) = type_delete_release

abbrev pub Fits : Operation → Type 0
Fits op = op.type ≡ config_type op.config

-- A call that returns a value or an error.
abbrev pub Returns : {World A : Type 0} → Act World A → Type 0
Returns {World = World} act = (w : World) → (act w).1 ≢ panic

pub record ReturnsAll (calls : Calls) : Type 0 where
  pub delete_resource :
      (meta : ResourceMeta) (namespace propagation : String)
      → Returns (calls.delete_resource meta namespace propagation)
  pub create_resource :
      (spec : ResourceSpec) (namespace : String) (replicas : Option ℤ) (retry : Bool)
      → Returns (calls.create_resource spec namespace replicas retry)
  pub apply_resource :
      (spec : ResourceSpec) (namespace : String) (retry : Bool)
      → Returns (calls.apply_resource spec namespace retry)
  pub namespaced : (gvk : GroupVersionKind) → Returns (calls.namespaced gvk)
  pub reset_and_retry :
      (check : Act calls.World Bool)
      → Returns check
      → Returns (calls.reset_and_retry_on_unknown_gvr check)
  pub add_absence_task :
      (name namespace : String) (gvk : GroupVersionKind)
      → Returns (calls.add_absence_task name namespace gvk)
  pub await_absence :
      (name namespace : String) (gvk : GroupVersionKind) (timeout : ℕ)
      → Returns (calls.await_absence name namespace gvk timeout)
  pub add_presence_task :
      (name namespace : String) (gvk : GroupVersionKind)
      → Returns (calls.add_presence_task name namespace gvk)
  pub await_presence :
      (name namespace : String) (gvk : GroupVersionKind) (timeout : ℕ)
      → Returns (calls.await_presence name namespace gvk timeout)
  pub add_readiness_task :
      (name namespace : String) (config : TrackReadiness)
      → Returns (calls.add_readiness_task name namespace config)
  pub new_readiness_tracker :
      (name namespace : String) (config : TrackReadiness) (timeout : ℕ)
      → Returns (calls.new_readiness_tracker name namespace config timeout)
  pub await_readiness :
      (name namespace : String) (config : TrackReadiness) (timeout : ℕ)
      → Returns (calls.await_readiness name namespace config timeout)
  pub history_create : (rel : HelmRelease) → Returns (calls.history_create rel)
  pub history_update : (rel : HelmRelease) → Returns (calls.history_update rel)
  pub history_delete : (name : String) (revision : ℕ) → Returns (calls.history_delete name revision)

proceed-Returns :
    {World A B : Type 0} (p : World × Result A) (rest : A → Act World B)
    → p.1 ≢ panic
    → ((a : A) → Returns (rest a))
    → (proceed p rest).1 ≢ panic
proceed-Returns (w, ok a) rest h hr = hr a w
proceed-Returns (w, err e) rest h hr = λ same. cc
proceed-Returns (w, panic) rest h hr = absurd (h refl)

then-Returns :
    {World A B : Type 0} (first : Act World A) (rest : A → Act World B)
    → Returns first
    → ((a : A) → Returns (rest a))
    → Returns (first >>= rest)
unfolding ◌>>=◌
then-Returns first rest h hr w = proceed-Returns (first w) rest (h w) hr

wrap_err-ne-panic :
    {A : Type 0} (text : String) (r : Result A) → r ≢ panic → wrap_err text r ≢ panic
wrap_err-ne-panic text (ok a) h = λ same. cc
wrap_err-ne-panic text (err e) h = λ same. cc
wrap_err-ne-panic text panic h = absurd (h refl)

wrapped-Returns :
    {World A : Type 0} (text : String) (act : Act World A)
    → Returns act
    → Returns (wrapped text act)
unfolding wrapped
wrapped-Returns text act h w = wrap_err-ne-panic text ((act w).1) (h w)

All-append :
    (P : BuilderStep → Type 0) (xs ys : List BuilderStep) → All P xs → All P ys → All P (xs ++ ys)
All-append P [] ys p q = q
All-append P (x ∷ xs) ys p q = (p.0, All-append P xs ys p.1 q)

if-Fits :
    (b : Bool) (xs : List BuilderStep)
    → All (λ s. Fits s.operation) xs
    → All (λ s. Fits s.operation) (if b then xs else [])
if-Fits true xs p = p
if-Fits false xs p = tt

presence-Fits :
    (stage : Stage) (deps : List ExternalDependency)
    → All (λ s. Fits s.operation) (map (λ d. skipping_step (presence_op d) stage) deps)
unfolding new_operation config_type
presence-Fits stage [] = tt
presence-Fits stage (dep ∷ deps) = (refl, presence-Fits stage deps)

deploy-Fits :
    (info : InstallableResourceInfo) (t : ResourceInstallType)
    → All (λ s. Fits s.operation) (deploy_steps info t)
unfolding new_operation config_type
deploy-Fits info install_none = tt
deploy-Fits info install_create = (refl, tt)
deploy-Fits info install_recreate = (refl, tt)
deploy-Fits info install_update = (refl, tt)
deploy-Fits info install_apply = (refl, tt)

install_steps-Fits :
    (info : InstallableResourceInfo) → All (λ s. Fits s.operation) (install_steps info)
unfolding install_steps new_operation config_type track_readiness_op
install_steps-Fits info =
    All-append _ (presence_steps info) _
      (if-Fits _ _ (presence-Fits (stage_of info) info.local_resource.external_dependencies))
      (All-append _ (deploy_steps info info.must_install) _ (deploy-Fits info info.must_install) (
        All-append _ (track_steps info) (cleanup_steps info)
          (if-Fits info.must_track_readiness _ (refl, tt))
          (if-Fits info.must_delete_on_successful_install _ (refl, (refl, tt)))))

module _ (calls : Calls) (release_namespace : String) (timeouts : Timeouts)
    (safe : ReturnsAll calls) where
  get_namespace-Returns :
      (meta : ResourceMeta) → Returns (get_namespace calls release_namespace timeouts meta)
  unfolding get_namespace
  get_namespace-Returns meta =
      then-Returns _ _
        (wrapped-Returns _ _
          (safe.reset_and_retry _ (wrapped-Returns _ _ (safe.namespaced meta.gvk))))
        (λ b w same. cc)

  track_absence_of-Returns :
      (meta : ResourceMeta) → Returns (track_absence_of calls release_namespace timeouts meta)
  unfolding track_absence_of
  track_absence_of-Returns meta =
      then-Returns _ _ (wrapped-Returns _ _ (get_namespace-Returns meta)) (λ namespace.
        then-Returns _ _ (safe.add_absence_task meta.name namespace meta.gvk) (λ _.
          wrapped-Returns _ _ (safe.await_absence meta.name namespace meta.gvk timeouts.absence)))

  exec_config :
      (config : OperationConfig)
      → Returns (exec_op_typed calls release_namespace timeouts (config_type config) config)
  unfolding exec_op_typed config_type
  exec_config (noop _) = λ w same. cc
  exec_config (create spec replicas) =
      wrapped-Returns _ _ (safe.create_resource spec release_namespace replicas true)
  exec_config (recreate spec propagation replicas) =
      then-Returns _ _
        (wrapped-Returns _ _ (safe.delete_resource spec.meta release_namespace propagation))
        (λ _.
          then-Returns _ _ (track_absence_of-Returns spec.meta)
            (λ _. wrapped-Returns _ _ (safe.create_resource spec release_namespace replicas true)))
  exec_config (update spec) = wrapped-Returns _ _ (safe.apply_resource spec release_namespace true)
  exec_config (apply spec) = wrapped-Returns _ _ (safe.apply_resource spec release_namespace true)
  exec_config (delete meta propagation) =
      wrapped-Returns _ _ (safe.delete_resource meta release_namespace propagation)
  exec_config (track_readiness c) =
      then-Returns _ _ (wrapped-Returns _ _ (get_namespace-Returns c.resource_meta)) (λ namespace.
        then-Returns _ _ (safe.add_readiness_task c.resource_meta.name namespace c) (λ _.
          then-Returns _ _
            (wrapped-Returns _ _
              (safe.new_readiness_tracker c.resource_meta.name namespace c timeouts.readiness))
            (λ _.
              wrapped-Returns _ _
                (safe.await_readiness c.resource_meta.name namespace c timeouts.readiness))))
  exec_config (track_presence meta) =
      then-Returns _ _ (wrapped-Returns _ _ (get_namespace-Returns meta)) (λ namespace.
        then-Returns _ _ (safe.add_presence_task meta.name namespace meta.gvk) (λ _.
          wrapped-Returns _ _ (safe.await_presence meta.name namespace meta.gvk timeouts.presence)))
  exec_config (track_absence meta) = track_absence_of-Returns meta
  exec_config (create_release rel) = wrapped-Returns _ _ (safe.history_create rel)
  exec_config (update_release rel) = wrapped-Returns _ _ (safe.history_update rel)
  exec_config (delete_release name namespace revision) =
      wrapped-Returns _ _ (safe.history_delete name revision)

  exec_op-Returns :
      (op : Operation) → Fits op → Returns (exec_op calls release_namespace timeouts op)
  unfolding exec_op
  exec_op-Returns op fits =
      subst (λ t. Returns (exec_op_typed calls release_namespace timeouts t op.config)) (sym fits)
        (exec_config op.config)

  -- No operation of the chain that addInstallResourceOps makes for a resource panics when it is
  -- executed, if no call that it makes panics: each has the config that execOp asserts.
  pub install_steps-exec :
      (info : InstallableResourceInfo) (step : BuilderStep) (w : calls.World)
      → Memᴰ step (install_steps info)
      → (exec_op calls release_namespace timeouts step.operation w).1 ≢ panic
  install_steps-exec info step w m =
      exec_op-Returns step.operation
        (All-at (λ s. Fits s.operation) step (install_steps info) m (install_steps-Fits info)) w
