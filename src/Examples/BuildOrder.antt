-- ===== src/Examples/BuildOrder.antt =====
-- The theorems on the built graph, applied to the example.
use nelm.Base.{true, some, [], ◌∷◌, Memᴰ, ◌≡◌, refl, sym, subst, ok, decimal, decimal_int}
use nelm.Common.{
  present, stage_install, stage_uninstall, stage_final, stages_sort_handler, sub_stage_weighted,
}
use nelm.Common.Order.{install-mem, final-mem}
use nelm.Spec.{resource_id, match}
use nelm.Release.{deployed, release_id}
use nelm.Plan.Operation.{
  category_resource, type_create, type_text, create, config_id, Operation, operation_id, id,
}
use nelm.Plan.Graph.Paths.{Reaches}
use nelm.Plan.Chain.{
  add_operation, in_stage, skip_on_duplicate, stage_op_id, connect, operations, do_chain,
}
use nelm.Plan.Build.{new_operation, noop_operation, do_single}
use nelm.Plan.Build.Stages.{add_main_stages, add_weighted_sub_stages}
use nelm.Plan.Build.Releases.{add_release_operations}
use nelm.Plan.Build.Resources.{
  add_delete_resources_ops, install_stage, track_readiness_op, is_install_none, install_chain,
  add_install_resource_ops,
}
use nelm.Plan.Build.Dependencies.{
  deploy_type, get_deploy_op, get_delete_op, find_deploy_op_in_stage,
  find_track_readiness_op_in_stage, find_track_absence_op_in_stage, depend_upon_op,
  connect_internal_deploy_dependencies, connect_internal_delete_dependencies,
}
use nelm.Examples.ListGraph.{look, links, list_graph, list_graph-IsGraphLib}
use nelm.Examples.Deployment.{
  secret_dependency, service_dependency, obsolete_backend, config_dependency, config, job, obsolete,
  first_revision, inst_infos, copy, visit, del_infos, release_infos, copy-IsCopy,
  visit-KeepsEntries, example_graph,
}
use nelm.Plan.Build.Compose.BuildOrder.{
  build_graph-stage_order, build_graph-presence_first, build_graph-deploy_before_readiness,
  build_graph-readiness_before_cleanup, build_graph-deploy_dependency,
  build_graph-delete_dependency,
}
use nelm.Plan.Build.Compose.{build_graph}
use nelm.Plan.Build.Compose.Order.{placed, deploys, releases, installed}
use nelm.Plan.Build.Resources.InstallSteps.{presence_op, cleanup_op}
use nelm.Plan.Build.Resources.Placed.{delete_op, absence_op}
use nelm.Plan.Build.Releases.Placed.{update_release_op, at_status}

example_built :
    build_graph list_graph copy visit inst_infos del_infos release_infos ≡ ok example_graph
unfolding add_main_stages do_chain add_operation id noop_operation decimal add_weighted_sub_stages
    in_stage sub_stage_weighted decimal_int add_release_operations do_single release_id
    add_delete_resources_ops resource_id add_install_resource_ops track_readiness_op
    connect_internal_delete_dependencies connect_internal_deploy_dependencies depend_upon_op
    deploy_type find_deploy_op_in_stage find_track_absence_op_in_stage
    find_track_readiness_op_in_stage get_delete_op get_deploy_op install_chain install_stage
    is_install_none new_operation connect operations skip_on_duplicate stage_op_id config_id
    operation_id type_text match example_graph build_graph
example_built = refl

abbrev job_op : Operation
job_op =
    new_operation type_create category_resource 0
      (create job.local_resource.spec job.local_resource.default_replicas_on_creation)

abbrev config_op : Operation
config_op =
    new_operation type_create category_resource 0
      (create config.local_resource.spec config.local_resource.default_replicas_on_creation)

stages_sorted : stages_sort_handler stage_install stage_final ≡ true
unfolding stages_sort_handler
stages_sorted = refl

job-mem : Memᴰ job inst_infos
job-mem = Memᴰ.tail (Memᴰ.head refl)

-- The job runs before the release is marked as deployed.
build_graph-stage_order_example :
    Reaches
      (links example_graph)
      (id job_op)
      (id (update_release_op (at_status first_revision.release deployed)))
build_graph-stage_order_example =
    build_graph-stage_order list_graph list_graph-IsGraphLib copy copy-IsCopy visit
      visit-KeepsEntries inst_infos del_infos release_infos example_graph example_built
      stage_install stage_final (id job_op)
      (id (update_release_op (at_status first_revision.release deployed))) install-mem final-mem
      stages_sorted (placed (deploys job job_op job-mem refl))
      (releases first_revision stage_final
        (update_release_op (at_status first_revision.release deployed)) (Memᴰ.head refl) installed)

build_graph-presence_first_example :
    Reaches (links example_graph) (id (presence_op secret_dependency)) (id job_op)
build_graph-presence_first_example =
    build_graph-presence_first list_graph list_graph-IsGraphLib copy copy-IsCopy visit
      visit-KeepsEntries inst_infos del_infos release_infos example_graph example_built job
      secret_dependency job_op job-mem (Memᴰ.head refl) refl

build_graph-deploy_before_readiness_example :
    Reaches (links example_graph) (id job_op) (id (track_readiness_op job))
build_graph-deploy_before_readiness_example =
    build_graph-deploy_before_readiness list_graph list_graph-IsGraphLib copy copy-IsCopy visit
      visit-KeepsEntries inst_infos del_infos release_infos example_graph example_built job job_op
      job-mem refl refl

build_graph-readiness_before_cleanup_example :
    Reaches (links example_graph) (id (track_readiness_op job)) (id (cleanup_op job))
build_graph-readiness_before_cleanup_example =
    build_graph-readiness_before_cleanup list_graph list_graph-IsGraphLib copy copy-IsCopy visit
      visit-KeepsEntries inst_infos del_infos release_infos example_graph example_built job job-mem
      refl refl

job_deploy_op : get_deploy_op (look example_graph) job ≡ ok (some job_op)
unfolding add_main_stages do_chain add_operation id noop_operation decimal add_weighted_sub_stages
    in_stage sub_stage_weighted decimal_int add_release_operations do_single release_id
    add_delete_resources_ops resource_id add_install_resource_ops track_readiness_op
    connect_internal_delete_dependencies connect_internal_deploy_dependencies depend_upon_op
    deploy_type find_deploy_op_in_stage find_track_absence_op_in_stage
    find_track_readiness_op_in_stage get_delete_op get_deploy_op install_chain install_stage
    is_install_none new_operation connect operations skip_on_duplicate stage_op_id config_id
    operation_id type_text match example_graph build_graph
job_deploy_op = refl

config_found :
    depend_upon_op (look example_graph) inst_infos del_infos stage_install config_dependency present
    ≡ ok (some config_op)
unfolding add_main_stages do_chain add_operation id noop_operation decimal add_weighted_sub_stages
    in_stage sub_stage_weighted decimal_int add_release_operations do_single release_id
    add_delete_resources_ops resource_id add_install_resource_ops track_readiness_op
    connect_internal_delete_dependencies connect_internal_deploy_dependencies depend_upon_op
    deploy_type find_deploy_op_in_stage find_track_absence_op_in_stage
    find_track_readiness_op_in_stage get_delete_op get_deploy_op install_chain install_stage
    is_install_none new_operation connect operations skip_on_duplicate stage_op_id config_id
    operation_id type_text match example_graph build_graph
config_found = refl

build_graph-deploy_dependency_example : links example_graph (id config_op) (id job_op) ≡ true
build_graph-deploy_dependency_example =
    build_graph-deploy_dependency list_graph list_graph-IsGraphLib copy copy-IsCopy visit
      visit-KeepsEntries inst_infos del_infos release_infos example_graph example_built job job_op
      config_op config_dependency job-mem job_deploy_op (Memᴰ.head refl) config_found

backend_delete_op :
    get_delete_op (look example_graph) obsolete_backend ≡ ok (some (delete_op obsolete_backend))
unfolding add_main_stages do_chain add_operation id noop_operation decimal add_weighted_sub_stages
    in_stage sub_stage_weighted decimal_int add_release_operations do_single release_id
    add_delete_resources_ops resource_id add_install_resource_ops track_readiness_op
    connect_internal_delete_dependencies connect_internal_deploy_dependencies depend_upon_op
    deploy_type find_deploy_op_in_stage find_track_absence_op_in_stage
    find_track_readiness_op_in_stage get_delete_op get_deploy_op install_chain install_stage
    is_install_none new_operation connect operations skip_on_duplicate stage_op_id config_id
    operation_id type_text match example_graph build_graph
backend_delete_op = refl

service_found :
    find_track_absence_op_in_stage
      (look example_graph)
      del_infos
      inst_infos
      service_dependency
      stage_uninstall
    ≡ absence_op obsolete ∷ []
unfolding add_main_stages do_chain add_operation id noop_operation decimal add_weighted_sub_stages
    in_stage sub_stage_weighted decimal_int add_release_operations do_single release_id
    add_delete_resources_ops resource_id add_install_resource_ops track_readiness_op
    connect_internal_delete_dependencies connect_internal_deploy_dependencies depend_upon_op
    deploy_type find_deploy_op_in_stage find_track_absence_op_in_stage
    find_track_readiness_op_in_stage get_delete_op get_deploy_op install_chain install_stage
    is_install_none new_operation connect operations skip_on_duplicate stage_op_id config_id
    operation_id type_text match example_graph build_graph
service_found = refl

build_graph-delete_dependency_example :
    links example_graph (id (absence_op obsolete)) (id (delete_op obsolete_backend)) ≡ true
build_graph-delete_dependency_example =
    build_graph-delete_dependency list_graph list_graph-IsGraphLib copy copy-IsCopy visit
      visit-KeepsEntries inst_infos del_infos release_infos example_graph example_built
      obsolete_backend (delete_op obsolete_backend) (absence_op obsolete) service_dependency
      (Memᴰ.tail (Memᴰ.head refl)) backend_delete_op (Memᴰ.head refl)
      (subst (Memᴰ (absence_op obsolete)) (sym service_found) (Memᴰ.head refl))
