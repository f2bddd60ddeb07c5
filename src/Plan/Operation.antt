-- ===== src/Plan/Operation.antt =====
-- pkg/plan/operation.go and operation_config.go: an operation of a plan and its identifier.
use nelm.Base.{String, append_text, decimal, ℕ, ℤ, Bool, List, Option}
use nelm.Spec.{StringMap, ResourceMeta, ResourceSpec, meta_id}
use nelm.Resource.{FailMode}
use nelm.Release.{HelmRelease, release_id}

pub data OperationCategory : Type 0 where
  category_meta category_resource category_track category_release : OperationCategory

pub data OperationStatus : Type 0 where
  status_unknown status_pending status_completed status_failed : OperationStatus

pub data OperationType : Type 0 where
  type_apply type_create type_create_release type_delete type_delete_release type_noop type_recreate
        type_track_absence type_track_presence type_track_readiness type_update
        type_update_release :
      OperationType

unfoldable pub type_text : OperationType → String
type_text type_apply = "apply"
type_text type_create = "create"
type_text type_create_release = "create-release"
type_text type_delete = "delete"
type_text type_delete_release = "delete-release"
type_text type_noop = "noop"
type_text type_recreate = "recreate"
type_text type_track_absence = "track-absence"
type_text type_track_presence = "track-presence"
type_text type_track_readiness = "track-readiness"
type_text type_update = "update"
type_text type_update_release = "update-release"

-- OperationVersionApply and its eleven siblings are all 1.
abbrev pub operation_version : OperationType → ℕ
operation_version _ = 1

pub record TrackReadiness : Type 0 where
  pub resource_meta : ResourceMeta
  pub fail_mode : FailMode
  pub failures_allowed : ℤ
  pub ignore_logs : Bool
  pub ignore_logs_for_containers : List String
  pub ignore_logs_by_regex : Option String
  pub ignore_logs_by_regex_for_containers : StringMap
  pub ignore_readiness_probe_fails_by_container_name : List (String × ℤ)
  pub no_activity_timeout : ℤ
  pub save_events : Bool
  pub save_logs_by_regex : Option String
  pub save_logs_by_regex_for_containers : StringMap
  pub save_logs_only_for_containers : List String
  pub save_logs_only_for_number_of_replicas : ℤ

pub data OperationConfig : Type 0 where
  noop : (op_id : String) → OperationConfig
  create : (spec : ResourceSpec) (force_replicas : Option ℤ) → OperationConfig
  recreate :
      (spec : ResourceSpec) (delete_propagation : String) (force_replicas : Option ℤ)
      → OperationConfig
  update : (spec : ResourceSpec) → OperationConfig
  apply : (spec : ResourceSpec) → OperationConfig
  delete : (meta : ResourceMeta) (delete_propagation : String) → OperationConfig
  track_readiness : TrackReadiness → OperationConfig
  track_presence : (meta : ResourceMeta) → OperationConfig
  track_absence : (meta : ResourceMeta) → OperationConfig
  create_release : HelmRelease → OperationConfig
  update_release : HelmRelease → OperationConfig
  delete_release : (name namespace : String) (revision : ℕ) → OperationConfig

-- The ID methods of the configs.
unfoldable pub config_id : OperationConfig → String
config_id (noop op_id) = op_id
config_id (create spec _) = meta_id spec.meta
config_id (recreate spec _ _) = meta_id spec.meta
config_id (update spec) = meta_id spec.meta
config_id (apply spec) = meta_id spec.meta
config_id (delete meta _) = meta_id meta
config_id (track_readiness c) = meta_id c.resource_meta
config_id (track_presence meta) = meta_id meta
config_id (track_absence meta) = meta_id meta
config_id (create_release rel) = release_id rel.namespace rel.name rel.version
config_id (update_release rel) = release_id rel.namespace rel.name rel.version
config_id (delete_release name namespace revision) = release_id namespace name revision

pub record Operation : Type 0 where
  pub type : OperationType
  pub version : ℕ
  pub category : OperationCategory
  pub iteration : ℕ
  pub status : OperationStatus
  pub config : OperationConfig

-- fmt.Sprintf("%s/%d/%d/%s", t, version, iteration, configID)
unfoldable pub operation_id : OperationType → ℕ → ℕ → String → String
unfolding type_text
operation_id t version iteration config_id = append_text (type_text t) (
    append_text "/" (
      append_text (decimal version)
        (append_text "/" (append_text (decimal iteration) (append_text "/" config_id)))))

-- Operation.ID
unfoldable pub id : Operation → String
unfolding operation_id config_id
id op = operation_id op.type op.version op.iteration (config_id op.config)
