-- ===== src/Examples/Infos.antt =====
-- The theorems on resource infos, applied to the example.

use nelm.Base.{
  ◌↔◌, contains, String, ℕ, Bool, true, false, Option, none, some, List, [], ◌∷◌, map, Memᴰ, ◌≡◌,
  refl, ◌==◌, Result, ok, err, graph, Err, wrap, vertex_already_exists, any, decimal, decimal_int,
}
use nelm.Common.{
  policy_skip_create, policy_skip_recreate, policy_skip_update, stage_pre_install, stage_install,
  stage_uninstall, stage_post_install, sub_stage_weighted,
}
use nelm.Spec.{resource_id, meta_id, match, Unstructured}
use nelm.Release.{release_id}
use nelm.Plan.Operation.{type_text, config_id, operation_id, id}
use nelm.Plan.Info.{install_recreate, InstallableResourceInfo, DeletableResourceInfo}
use nelm.Plan.Infos.{
  highest_iteration, iterate_installable_resource_infos,
  filter_del_resources_present_in_inst_resources, deduplicate_deletable_resource_infos,
}
use nelm.Plan.Infos.Decisions.{
  stage_delete_on_successful_install, resource_install_type, resource_install_type-Allowed,
}
use nelm.Plan.Infos.Iterations.{marks, iterate_installable_resource_infos-marks}
use nelm.Plan.Infos.Filters.{
  IsForeign, filter_del_resources-mem, DistinctIds,
  deduplicate_deletable_resource_infos-DistinctIds,
}
use nelm.Plan.Chain.{
  add_operation, in_stage, skip_on_duplicate, stage_op_id, connect, operations, do_chain,
}
use nelm.Plan.Build.{new_operation, noop_operation, do_single}
use nelm.Plan.Build.Stages.{add_main_stages, add_weighted_sub_stages}
use nelm.Plan.Build.Releases.{add_release_operations}
use nelm.Plan.Build.Resources.{
  add_delete_resources_ops, install_stage, track_readiness_op, is_install_none, install_chain,
  add_install_resource_ops,
}
use nelm.Plan.Build.Dependencies.{
  deploy_type, get_deploy_op, get_delete_op, find_deploy_op_in_stage,
  find_track_readiness_op_in_stage, find_track_absence_op_in_stage, depend_upon_op,
  connect_internal_deploy_dependencies, connect_internal_delete_dependencies,
}
use nelm.Examples.ListGraph.{list_graph}
use nelm.Examples.Deployment.{config, job, obsolete, copy, visit}
use nelm.Plan.Build.Compose.{build_graph}
use nelm.Plan.Build.Resources.InstallSteps.{install_steps, install_chain-eq}

-- A job that is deployed in three stages.
abbrev thrice : List InstallableResourceInfo
thrice =
    record job { stage = stage_pre_install } ∷ job ∷ record job { stage = stage_post_install } ∷ []

abbrev iterated : List InstallableResourceInfo
iterated =
    record job { stage = stage_pre_install }
    ∷ record job { iteration = 1 }
    ∷ record job { stage = stage_post_install; iteration = 1 }
    ∷ []

thrice-iterated : iterate_installable_resource_infos thrice ≡ ok iterated
unfolding iterate_installable_resource_infos resource_id is_install_none highest_iteration
thrice-iterated = refl

iterate_installable_resource_infos-marks_example :
    map (λ (info : InstallableResourceInfo). info.iteration) iterated ≡ marks [] thrice
iterate_installable_resource_infos-marks_example =
    iterate_installable_resource_infos-marks thrice iterated (refl, (refl, (refl, tt)))
      thrice-iterated

-- The second and the third deployment have one identifier, and the plan cannot be built.
thrice_test :
    build_graph list_graph copy visit iterated [] []
    ≡ err (
        wrap "add install resource operations"
          (wrap "do add chain operations" (wrap "add vertex" (graph vertex_already_exists))))
unfolding add_main_stages do_chain add_operation id noop_operation decimal add_weighted_sub_stages
    in_stage sub_stage_weighted decimal_int add_release_operations do_single release_id
    add_delete_resources_ops resource_id add_install_resource_ops track_readiness_op
    connect_internal_delete_dependencies connect_internal_deploy_dependencies depend_upon_op
    deploy_type find_deploy_op_in_stage find_track_absence_op_in_stage
    find_track_readiness_op_in_stage get_delete_op get_deploy_op install_chain install_stage
    is_install_none new_operation connect operations skip_on_duplicate stage_op_id config_id
    operation_id type_text match build_graph
thrice_test = refl

abbrev live : String → Unstructured
live uid = record {
  uid = uid;
  name = "old";
  namespace = "";
  gvk = obsolete.meta.gvk;
  annotations = [];
  labels = [];
  content = "";
}

abbrev found : InstallableResourceInfo
found = record config { get_result = some (live "u-1") }

abbrev found_obsolete : DeletableResourceInfo
found_obsolete = record obsolete { get_result = some (live "u-2") }

filter_del_resources-mem_example :
    Memᴰ found_obsolete
      (filter_del_resources_present_in_inst_resources (found ∷ []) (found_obsolete ∷ []))
    ↔ (IsForeign (found ∷ []) (some (live "u-2")) × Memᴰ found_obsolete (found_obsolete ∷ []))
filter_del_resources-mem_example =
    filter_del_resources-mem (found ∷ []) (found_obsolete ∷ []) found_obsolete

kept :
    filter_del_resources_present_in_inst_resources
      (found ∷ [])
      (found_obsolete ∷ record found_obsolete { get_result = some (live "u-1") } ∷ [])
    ≡ found_obsolete ∷ []
unfolding filter_del_resources_present_in_inst_resources
kept = refl

deduplicate_deletable_resource_infos-DistinctIds_example :
    DistinctIds (deduplicate_deletable_resource_infos (obsolete ∷ found_obsolete ∷ []))
    × ((info : DeletableResourceInfo)
        → Memᴰ info (obsolete ∷ found_obsolete ∷ [])
        → any
            (λ k. meta_id info.meta == meta_id k.meta)
            (deduplicate_deletable_resource_infos (obsolete ∷ found_obsolete ∷ []))
          ≡ true)
deduplicate_deletable_resource_infos-DistinctIds_example =
    deduplicate_deletable_resource_infos-DistinctIds (obsolete ∷ found_obsolete ∷ [])

-- A resource that differs from the cluster and must not be updated.
abbrev never_immutable : Err → Bool
never_immutable e = false

abbrev one_change : Unstructured → Option Unstructured → Result ℕ
one_change u v = ok 1

-- A resource that is recreated, though it must be neither created nor updated.
recreated :
    resource_install_type never_immutable one_change
      (record config.local_resource { recreate = true })
      (some (live "u-1"))
      (some (live "u-1"))
      none
      (policy_skip_create ∷ policy_skip_update ∷ [])
    ≡ ok (install_recreate, false)
unfolding resource_install_type
recreated = refl

resource_install_type-Allowed_example :
    (contains (policy_skip_create ∷ policy_skip_update ∷ []) policy_skip_recreate ≡ false)
    × (false ≡ false)
resource_install_type-Allowed_example =
    resource_install_type-Allowed never_immutable one_change
      (record config.local_resource { recreate = true }) (some (live "u-1")) (some (live "u-1"))
      none (policy_skip_create ∷ policy_skip_update ∷ []) (install_recreate, false) recreated

cleaned_late : stage_delete_on_successful_install true stage_install ≡ ok stage_uninstall
unfolding stage_delete_on_successful_install
cleaned_late = refl

install_chain-eq_example : install_chain job ≡ ok (install_steps job)
install_chain-eq_example = install_chain-eq job
