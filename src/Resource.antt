-- ===== src/Resource.antt =====
-- pkg/resource/resource.go and dependency.go: the resources of a release.
pub mod Sort
pub mod DeployConditions
pub mod Metadata
use nelm.Base.{String, ℤ, Bool, List, Option, ℕ}
use nelm.Common.{Stage, On, ResourceState, ResourcePolicy, Ownership}
use nelm.Spec.{StringMap, ResourceMeta, ResourceSpec, ResourceMatcher}

-- A `*int`: two pointers are equal when their addresses are.
pub record IntPtr : Type 0 where
  pub address : ℕ
  pub value : ℤ

-- The modes of the tracker library (multitrack), by the names of its constants.
pub data FailMode : Type 0 where
  ignore_and_continue_deploy_process fail_whole_deploy_process_immediately
        hope_until_end_of_deploy_process :
      FailMode

pub data TrackTerminationMode : Type 0 where
  wait_until_resource_ready non_blocking : TrackTerminationMode

pub record InternalDependency : Type 0 where
  pub matcher : ResourceMatcher
  pub resource_state : ResourceState

pub record ExternalDependency : Type 0 where
  pub meta : ResourceMeta

-- A compiled regular expression is the text of its pattern, and a duration its nanoseconds.
pub record InstallableResource : Type 0 where
  pub spec : ResourceSpec
  pub ownership : Ownership
  pub recreate : Bool
  pub recreate_on_immutable : Bool
  pub resource_policies : List ResourcePolicy
  pub default_replicas_on_creation : Option ℤ
  pub delete_on_succeeded : Bool
  pub delete_on_failed : Bool
  pub fail_mode : FailMode
  pub failures_allowed : ℤ
  pub ignore_readiness_probe_fails_for_containers : List (String × ℤ)
  pub log_regex : Option String
  pub log_regexes_for_containers : StringMap
  pub no_activity_timeout : ℤ
  pub show_logs_only_for_containers : List String
  pub show_service_messages : Bool
  pub show_logs_only_for_number_of_replicas : ℤ
  pub skip_logs : Bool
  pub skip_logs_for_containers : List String
  pub skip_logs_regex : Option String
  pub skip_logs_regex_for_containers : StringMap
  pub track_termination_mode : TrackTerminationMode
  pub weight : Option IntPtr
  pub manual_internal_dependencies : List InternalDependency
  pub auto_internal_dependencies : List InternalDependency
  pub external_dependencies : List ExternalDependency
  pub deploy_conditions : On → List Stage
  pub delete_propagation : String

pub record DeletableResource : Type 0 where
  pub meta : ResourceMeta
  pub auto_internal_dependencies : List InternalDependency
  pub delete_propagation : String
  pub manual_internal_dependencies : List InternalDependency
  pub ownership : Ownership
  pub resource_policies : List ResourcePolicy
