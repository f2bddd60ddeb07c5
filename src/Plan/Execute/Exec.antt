-- ===== src/Plan/Execute/Exec.antt =====
-- pkg/plan/plan_execute.go, execOp and what it calls: what a worker does for an operation. The
-- cluster, the trackers and the history are a state and the calls that change it; a call ends with
-- a result. An options struct of a call is its arguments.
pub mod Fits
use nelm.Base.{
  String, ℕ, ℤ, Bool, true, false, Option, Result, ok, err, panic, wrap_err, if◌then◌else◌, ◌==◌,
}
use nelm.Spec.{GroupVersionKind, ResourceMeta, ResourceSpec}
use nelm.Release.{HelmRelease}
use nelm.Plan.Operation.{
  OperationType, type_apply, type_create, type_create_release, type_delete, type_delete_release,
  type_noop, type_recreate, type_track_absence, type_track_presence, type_track_readiness,
  type_update, type_update_release, TrackReadiness, OperationConfig, create, recreate, update,
  apply, delete, track_readiness, track_presence, track_absence, create_release, update_release,
  delete_release, Operation,
}

-- A call: the next state, and what is returned.
abbrev pub Act : Type 0 → Type 0 → Type 0
Act World A = World → World × Result A

abbrev pub proceed : {World A B : Type 0} → World × Result A → (A → Act World B) → World × Result B
proceed (w, ok a) rest = rest a w
proceed (w, err e) rest = (w, err e)
proceed (w, panic) rest = (w, panic)

-- `if …, err := first; err != nil { return err }`
infixl 5 ◌>>=◌
unfoldable pub ◌>>=◌ : {World A B : Type 0} → Act World A → (A → Act World B) → Act World B
(first >>= rest) w = proceed (first w) rest

unfoldable pub wrapped : {World A : Type 0} → String → Act World A → Act World A
wrapped text act w = let (w', result) = act w in (w', wrap_err text result)

abbrev pub panics : {World A : Type 0} → Act World A
panics w = (w, panic)

abbrev pub returns : {World A : Type 0} → A → Act World A
returns a w = (w, ok a)

-- The calls of KubeClient, of the trackers (with the state that is added to the task store) and of
-- the history.
pub record Calls : Type 1 where
  pub World : Type 0
  -- The resource, DefaultNamespace and PropagationPolicy.
  pub delete_resource : ResourceMeta → String → String → Act World (Unit {0})
  -- The resource, DefaultNamespace, ForceReplicas and RetryOnWebhookError.
  pub create_resource : ResourceSpec → String → Option ℤ → Bool → Act World (Unit {0})
  -- The resource, DefaultNamespace and RetryOnWebhookError.
  pub apply_resource : ResourceSpec → String → Bool → Act World (Unit {0})
  pub namespaced : GroupVersionKind → Act World Bool
  pub reset_and_retry_on_unknown_gvr : Act World Bool → Act World Bool
  -- The name, the namespace and the kind of the tracked resource, and the timeout.
  pub add_absence_task : String → String → GroupVersionKind → Act World (Unit {0})
  pub await_absence : String → String → GroupVersionKind → ℕ → Act World (Unit {0})
  pub add_presence_task : String → String → GroupVersionKind → Act World (Unit {0})
  pub await_presence : String → String → GroupVersionKind → ℕ → Act World (Unit {0})
  -- The same with the rest of the operation's config.
  pub add_readiness_task : String → String → TrackReadiness → Act World (Unit {0})
  pub new_readiness_tracker : String → String → TrackReadiness → ℕ → Act World (Unit {0})
  pub await_readiness : String → String → TrackReadiness → ℕ → Act World (Unit {0})
  pub history_create : HelmRelease → Act World (Unit {0})
  pub history_update : HelmRelease → Act World (Unit {0})
  pub history_delete : String → ℕ → Act World (Unit {0})

-- The timeouts that ExecutePlan passes on.
pub record Timeouts : Type 0 where
  pub readiness : ℕ
  pub presence : ℕ
  pub absence : ℕ

module _ (calls : Calls) (release_namespace : String) (timeouts : Timeouts) where
  open calls use {
    World, delete_resource, create_resource, apply_resource, namespaced,
    reset_and_retry_on_unknown_gvr, add_absence_task, await_absence, add_presence_task,
    await_presence, add_readiness_task, new_readiness_tracker, await_readiness, history_create,
    history_update, history_delete,
  }

  -- The namespace of a namespaced resource, or the empty one.
  unfoldable pub namespace_of : ResourceMeta → Bool → String
  namespace_of meta true = if meta.namespace == "" then release_namespace else meta.namespace
  namespace_of meta false = ""

  unfoldable pub get_namespace : ResourceMeta → Act World String
  unfolding namespace_of
  get_namespace meta = do
    is_namespaced ←
        wrapped "check if resource is namespaced"
          (reset_and_retry_on_unknown_gvr (wrapped "check resource scope" (namespaced meta.gvk)))
    returns (namespace_of meta is_namespaced)

  -- What execOpTrackAbsence and execOpRecreate do to wait until a resource is gone.
  unfoldable pub track_absence_of : ResourceMeta → Act World (Unit {0})
  unfolding get_namespace
  track_absence_of meta = do
    namespace ← wrapped "determine resource namespace" (get_namespace meta)
    _ ← add_absence_task meta.name namespace meta.gvk
    wrapped "track resource absence" (await_absence meta.name namespace meta.gvk timeouts.absence)

  -- `op.Config.(*OperationConfig…)` panics on a config of another operation.
  unfoldable pub exec_op_recreate : OperationConfig → Act World (Unit {0})
  unfolding track_absence_of
  exec_op_recreate (recreate spec delete_propagation force_replicas) = do
    _ ← wrapped "delete resource" (delete_resource spec.meta release_namespace delete_propagation)
    _ ← track_absence_of spec.meta
    wrapped "create resource" (create_resource spec release_namespace force_replicas true)
  exec_op_recreate _ = panics

  unfoldable pub exec_op_track_absence : OperationConfig → Act World (Unit {0})
  unfolding track_absence_of
  exec_op_track_absence (track_absence meta) = track_absence_of meta
  exec_op_track_absence _ = panics

  unfoldable pub exec_op_track_presence : OperationConfig → Act World (Unit {0})
  unfolding get_namespace
  exec_op_track_presence (track_presence meta) = do
    namespace ← wrapped "determine resource namespace" (get_namespace meta)
    _ ← add_presence_task meta.name namespace meta.gvk
    wrapped "track resource presence"
        (await_presence meta.name namespace meta.gvk timeouts.presence)
  exec_op_track_presence _ = panics

  unfoldable pub exec_op_track_readiness : OperationConfig → Act World (Unit {0})
  unfolding get_namespace
  exec_op_track_readiness (track_readiness config) = do
    namespace ← wrapped "determine resource namespace" (get_namespace config.resource_meta)
    _ ← add_readiness_task config.resource_meta.name namespace config
    _ ←
        wrapped "construct dynamic readiness tracker"
          (new_readiness_tracker config.resource_meta.name namespace config timeouts.readiness)
    wrapped "track resource readiness"
        (await_readiness config.resource_meta.name namespace config timeouts.readiness)
  exec_op_track_readiness _ = panics

  unfoldable pub exec_op_apply : OperationConfig → Act World (Unit {0})
  exec_op_apply (apply spec) = wrapped "apply resource" (apply_resource spec release_namespace true)
  exec_op_apply _ = panics

  unfoldable pub exec_op_create : OperationConfig → Act World (Unit {0})
  exec_op_create (create spec force_replicas) =
      wrapped "create resource" (create_resource spec release_namespace force_replicas true)
  exec_op_create _ = panics

  unfoldable pub exec_op_create_release : OperationConfig → Act World (Unit {0})
  exec_op_create_release (create_release rel) = wrapped "create release" (history_create rel)
  exec_op_create_release _ = panics

  unfoldable pub exec_op_delete : OperationConfig → Act World (Unit {0})
  exec_op_delete (delete meta delete_propagation) =
      wrapped "delete resource" (delete_resource meta release_namespace delete_propagation)
  exec_op_delete _ = panics

  unfoldable pub exec_op_delete_release : OperationConfig → Act World (Unit {0})
  exec_op_delete_release (delete_release name namespace revision) =
      wrapped "delete release" (history_delete name revision)
  exec_op_delete_release _ = panics

  unfoldable pub exec_op_update : OperationConfig → Act World (Unit {0})
  exec_op_update (update spec) =
      wrapped "apply resource" (apply_resource spec release_namespace true)
  exec_op_update _ = panics

  unfoldable pub exec_op_update_release : OperationConfig → Act World (Unit {0})
  exec_op_update_release (update_release rel) = wrapped "update release" (history_update rel)
  exec_op_update_release _ = panics

  -- The switch of execOp, on the type of the operation.
  unfoldable pub exec_op_typed : OperationType → OperationConfig → Act World (Unit {0})
  unfolding exec_op_recreate exec_op_track_absence exec_op_track_presence exec_op_track_readiness
      exec_op_apply exec_op_create exec_op_create_release exec_op_delete exec_op_delete_release
      exec_op_update exec_op_update_release
  exec_op_typed type_create config = exec_op_create config
  exec_op_typed type_recreate config = exec_op_recreate config
  exec_op_typed type_update config = exec_op_update config
  exec_op_typed type_apply config = exec_op_apply config
  exec_op_typed type_delete config = exec_op_delete config
  exec_op_typed type_track_readiness config = exec_op_track_readiness config
  exec_op_typed type_track_presence config = exec_op_track_presence config
  exec_op_typed type_track_absence config = exec_op_track_absence config
  exec_op_typed type_create_release config = exec_op_create_release config
  exec_op_typed type_update_release config = exec_op_update_release config
  exec_op_typed type_delete_release config = exec_op_delete_release config
  exec_op_typed type_noop config = returns tt

  unfoldable pub exec_op : Operation → Act World (Unit {0})
  unfolding exec_op_typed
  exec_op op = exec_op_typed op.type op.config
