-- ===== src/Examples/Readiness.antt =====
-- The theorems on readiness and on sorting by weight, applied to the example.
use nelm.Base.{true, false, some, [], ◌∷◌, Memᴰ, ◌≡◌, refl, inl, pos}
use nelm.Common.{ready}
use nelm.Spec.{match, is_crd}
use nelm.Resource.{IntPtr, InternalDependency, InstallableResource}
use nelm.Plan.Info.{InstallableResourceInfo}
use nelm.Plan.Infos.{force_readiness_tracking_for_ready_dependency_targets}
use nelm.Plan.Infos.Readiness.{tracked, force_readiness_tracking-tracked}
use nelm.Resource.Sort.{
  installable_resource_sort_by_weight_handler, installable_resource_sort_by_weight_handler-equal,
}
use nelm.Examples.Deployment.{config_dependency, config, job_weight, job}

abbrev ready_dependency : InternalDependency
ready_dependency = record config_dependency { resource_state = ready }

-- A job that waits until the config map is ready.
abbrev waiting : InstallableResourceInfo
waiting = record job {
  local_resource = record job.local_resource {
    manual_internal_dependencies = ready_dependency ∷ [];
  };
}

-- A config map that would not be tracked.
abbrev untracked : InstallableResourceInfo
untracked = record config { must_track_readiness = false }

matches_config :
    (match ready_dependency.matcher untracked.meta ≡ true) × (is_crd untracked.meta.gvk ≡ false)
unfolding match is_crd
matches_config = (refl, refl)

force_readiness_tracking-tracked_example :
    Memᴰ
      (tracked untracked)
      (force_readiness_tracking_for_ready_dependency_targets (waiting ∷ untracked ∷ []))
force_readiness_tracking-tracked_example =
    force_readiness_tracking-tracked (waiting ∷ untracked ∷ []) waiting untracked ready_dependency
      (Memᴰ.head refl) (Memᴰ.head refl) refl (Memᴰ.tail (Memᴰ.head refl)) refl matches_config.0
      matches_config.1 (inl (λ h. cc))

-- A weight of the same value at another address.
abbrev other_weight : IntPtr
other_weight = record { address = 2; value = pos 5 }

abbrev other : InstallableResource
other = record config.local_resource { weight = some other_weight }

installable_resource_sort_by_weight_handler-equal_example :
    (installable_resource_sort_by_weight_handler job.local_resource other ≡ false)
    × (installable_resource_sort_by_weight_handler other job.local_resource ≡ false)
installable_resource_sort_by_weight_handler-equal_example =
    installable_resource_sort_by_weight_handler-equal job.local_resource other job_weight
      other_weight refl refl refl refl
