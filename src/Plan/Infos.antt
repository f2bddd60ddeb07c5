-- ===== src/Plan/Infos.antt =====
-- pkg/plan/resource_info.go: the decisions about single resources, and the passes over the infos of
-- a release.
pub mod Iterations
pub mod Decisions
pub mod Deletions
pub mod Filters
pub mod Readiness
pub mod Sort
use nelm.Base.{
  String, ℕ, zero, suc, ◌-◌, Bool, true, false, Option, none, some, List, [], ◌∷◌, ◌++◌, map, ◌==◌,
  ◌&&◌, not, Result, ok, ◌>>=◌, if◌then◌else◌, find?, filter_by, any, contains, leb, nat_eq,
}
use nelm.Common.{absent, present, ready, Stage, policy_skip_create}
use nelm.Spec.{meta_id, ResourceMatcher, match, is_crd, Unstructured}
use nelm.Resource.{fail_whole_deploy_process_immediately, InternalDependency}
use nelm.Plan.Info.{install_create, InstallableResourceInfo, DeletableResourceInfo, info_id}
use nelm.Plan.Chain.{must_find}
use nelm.Plan.Build.Resources.{is_install_none}

-- iterateInstallableResourceInfos, first loop: the infos seen so far stand with the iterations that
-- they were given.
iteration_after : Option InstallableResourceInfo → InstallableResourceInfo → InstallableResourceInfo
iteration_after none info = info
iteration_after (some seen_info) info = record info { iteration = suc seen_info.iteration }

iterate_seen :
    List InstallableResourceInfo → List InstallableResourceInfo → List InstallableResourceInfo
unfolding iteration_after
iterate_seen seen_infos [] = []
iterate_seen seen_infos (info ∷ infos) =
    let info' = iteration_after (find? (λ inf. info_id info == info_id inf) seen_infos) info in
    info' ∷ iterate_seen (seen_infos ++ info' ∷ []) infos

unfoldable pub highest_iteration : List InstallableResourceInfo → ℕ
highest_iteration [] = 0
highest_iteration (info ∷ infos) =
    let rest = highest_iteration infos in if leb info.iteration rest then rest else info.iteration

-- The body of the innermost loop: an info of the iteration `iter` that is installed is created anew
-- if the info of the iteration before is deleted after its installation.
recreate_after :
    List InstallableResourceInfo → InstallableResourceInfo → Result InstallableResourceInfo
unfolding is_install_none
recreate_after infos info = if is_install_none info.must_install then ok info else (do
  prev ← must_find (
      find? (λ inf. info_id info == info_id inf && nat_eq inf.iteration (info.iteration - 1)) infos)
  ok (
      if prev.must_delete_on_successful_install
        && not (contains info.local_resource.resource_policies policy_skip_create)
      then record info { must_install = install_create }
      else info))

-- The infos of one iteration. What a step reads of the other infos (identity, iteration, whether they
-- are deleted) no step writes, so they are read from the list as it was before.
recreate_iteration :
    List InstallableResourceInfo
    → ℕ
    → List InstallableResourceInfo
    → Result (List InstallableResourceInfo)
unfolding recreate_after
recreate_iteration all_infos iter [] = ok []
recreate_iteration all_infos iter (info ∷ infos) = do
  info' ← (if nat_eq info.iteration iter then recreate_after all_infos info else ok info)
  infos' ← recreate_iteration all_infos iter infos
  ok (info' ∷ infos')

-- `for iter := 1; iter <= highestIteration; iter++`, with the number of rounds that are left.
recreate_from : ℕ → ℕ → List InstallableResourceInfo → Result (List InstallableResourceInfo)
unfolding recreate_iteration
recreate_from zero iter infos = ok infos
recreate_from (suc rounds) iter infos = do
  infos' ← recreate_iteration infos iter infos
  recreate_from rounds (suc iter) infos'

unfoldable pub iterate_installable_resource_infos :
    List InstallableResourceInfo → Result (List InstallableResourceInfo)
unfolding iterate_seen highest_iteration recreate_from
iterate_installable_resource_infos infos = recreate_from (highest_iteration infos') 1 infos'
  where
    infos' : List InstallableResourceInfo
    infos' = iterate_seen [] infos

-- filterDelResourcesPresentInInstResources
inst_resources_uids : List InstallableResourceInfo → List String
inst_resources_uids [] = []
inst_resources_uids (info ∷ infos) =
    let rest = inst_resources_uids infos in
    elim info.get_result [ none ↦ rest | some u ↦ u.uid ∷ rest ]

is_present : List String → Option Unstructured → Bool
is_present uids none = false
is_present uids (some u) = contains uids u.uid

unfoldable pub filter_del_resources_present_in_inst_resources :
    List InstallableResourceInfo → List DeletableResourceInfo → List DeletableResourceInfo
unfolding inst_resources_uids is_present
filter_del_resources_present_in_inst_resources inst_infos del_infos =
    filter_by (λ info. not (is_present (inst_resources_uids inst_infos) info.get_result)) del_infos

-- lo.UniqBy: an info whose identifier was seen is left out.
uniq_by_id : List String → List DeletableResourceInfo → List DeletableResourceInfo
uniq_by_id seen [] = []
uniq_by_id seen (info ∷ infos) =
    let rest = uniq_by_id seen infos in
    let rest' = uniq_by_id (meta_id info.meta ∷ seen) infos in
    if contains seen (meta_id info.meta) then rest else info ∷ rest'

unfoldable pub deduplicate_deletable_resource_infos :
    List DeletableResourceInfo → List DeletableResourceInfo
unfolding uniq_by_id
deduplicate_deletable_resource_infos infos = uniq_by_id [] infos

-- forceReadinessTrackingForReadyDependencyTargets
ready_matchers_of : Stage → List InternalDependency → List (ResourceMatcher × Stage)
ready_matchers_of stage [] = []
ready_matchers_of stage (dep ∷ deps) =
    let rest = ready_matchers_of stage deps in
    elim dep.resource_state [ ready ↦ (dep.matcher, stage) ∷ rest | absent ↦ rest | present ↦ rest ]

ready_matchers : List InstallableResourceInfo → List (ResourceMatcher × Stage)
unfolding ready_matchers_of
ready_matchers [] = []
ready_matchers (info ∷ infos) =
    ready_matchers_of info.stage info.local_resource.manual_internal_dependencies
    ++ ready_matchers infos

is_none : Option Unstructured → Bool
is_none none = true
is_none (some _) = false

force_readiness : List (ResourceMatcher × Stage) → InstallableResourceInfo → InstallableResourceInfo
unfolding is_install_none is_none
force_readiness matchers info =
    if is_crd info.meta.gvk
    then info
    else if is_install_none info.must_install && is_none info.get_result
    then info
    else if not (
        any (λ (rm : ResourceMatcher × Stage). rm.1 == info.stage && match rm.0 info.meta) matchers)
    then info
    else record info {
      must_track_readiness = true;
      fail_mode = fail_whole_deploy_process_immediately;
    }

force_readiness_all :
    List (ResourceMatcher × Stage) → List InstallableResourceInfo → List InstallableResourceInfo
unfolding force_readiness
force_readiness_all [] infos = infos
force_readiness_all (m ∷ matchers) infos = map (force_readiness (m ∷ matchers)) infos

unfoldable pub force_readiness_tracking_for_ready_dependency_targets :
    List InstallableResourceInfo → List InstallableResourceInfo
unfolding ready_matchers force_readiness_all
force_readiness_tracking_for_ready_dependency_targets infos =
    force_readiness_all (ready_matchers infos) infos
