-- ===== src/Examples/Rollout.antt =====
-- A release without resources from its plan to the end of the execution: the plan is built, optimized
-- and executed (pkg/plan).
use nelm.Base.{
  String, true, false, none, some, List, [], ◌∷◌, Memᴰ, ◌≡◌, ◌≢◌, ◌↔◌, refl, ◌==◌, ◌⊎◌, inr, Result,
  ok, pos, decimal, decimal_int,
}
use nelm.Common.{stage_init, stage_final, stages_sort_handler, sub_stage_weighted}
use nelm.Common.Order.{init-mem, final-mem}
use nelm.Release.{deployed, pending_install, release_id}
use nelm.Plan.Operation.{
  status_unknown, status_completed, type_text, config_id, Operation, operation_id, id,
}
use nelm.Plan.Execute.{
  System, remove, initial_system, advance, complete_op, send_op, start, DistinctKeys,
  IsPredecessorMap,
}
use nelm.Plan.Optimize.{
  NoCycle, has_suffix, cut_suffix, is_meta_op, meta_pair, find_meta_operation_pairs,
  squash_operation, find_useless_meta_operations, squash_pairs, useless_pairs_of, last_round,
  Optimizes,
}
use nelm.Plan.Optimize.Squash.{squash_operation-paths}
use nelm.Plan.Optimize.Reduced.{Optimizes-paths}
use nelm.Plan.Optimize.Metas.{IsLasting}
use nelm.Plan.Deploy.{executed-stage_order}
use nelm.Examples.ListEdits.{list_edits, list_edits-IsGraphEdits}
use nelm.Examples.ListPlan.{
  predecessor_map, predecessor_map-IsPredecessorMap, is_ranked, is_ranked-NoCycle, position, play,
  play-Reached,
}
use nelm.Plan.Graph.Paths.{Reaches}
use nelm.Plan.Chain.{add_operation, in_stage, stage_op_id, connect, operations, do_chain}
use nelm.Plan.Build.{new_operation, noop_operation, do_single}
use nelm.Plan.Build.Stages.{add_main_stages, add_weighted_sub_stages}
use nelm.Plan.Build.Releases.{add_release_operations}
use nelm.Plan.Build.Resources.{add_delete_resources_ops, add_install_resource_ops}
use nelm.Plan.Build.Dependencies.{
  connect_internal_deploy_dependencies, connect_internal_delete_dependencies,
}
use nelm.Examples.ListGraph.{Entry, look, links, list_graph, list_graph-IsGraphLib}
use nelm.Examples.Deployment.{
  first_revision, copy, visit, release_infos, copy-IsCopy, visit-KeepsEntries,
}
use nelm.Plan.Build.Compose.BuildOrder.{build_graph-stage_order}
use nelm.Plan.Build.Compose.{build_graph}
use nelm.Plan.Build.Compose.Order.{placed, releases, installing, installed}
use nelm.Plan.Build.Releases.Placed.{create_release_op, update_release_op, at_status}

graph_of : Result (List Entry) → List Entry
graph_of (ok g) = g
graph_of _ = []

pairs_of : Result (List (Operation × Operation)) → List (Operation × Operation)
pairs_of (ok pairs) = pairs
pairs_of _ = []

built_graph : List Entry
unfolding graph_of build_graph
built_graph = graph_of (build_graph list_graph copy visit [] [] release_infos)

useless : List (Operation × Operation)
unfolding pairs_of useless_pairs_of built_graph
useless = pairs_of (useless_pairs_of list_graph list_edits built_graph)

plan : List Entry
unfolding graph_of squash_pairs useless built_graph
plan = graph_of (squash_pairs list_graph list_edits built_graph useless)

built_eq : build_graph list_graph copy visit [] [] release_infos ≡ ok built_graph
unfolding add_main_stages do_chain add_operation id noop_operation decimal add_weighted_sub_stages
    in_stage sub_stage_weighted decimal_int add_release_operations do_single release_id
    add_delete_resources_ops add_install_resource_ops connect_internal_delete_dependencies
    connect_internal_deploy_dependencies new_operation connect operations stage_op_id config_id
    operation_id type_text built_graph build_graph
built_eq = refl

useless_eq : useless_pairs_of list_graph list_edits built_graph ≡ ok useless
unfolding add_main_stages do_chain add_operation id noop_operation decimal add_weighted_sub_stages
    in_stage sub_stage_weighted decimal_int add_release_operations do_single release_id
    add_delete_resources_ops add_install_resource_ops connect_internal_delete_dependencies
    connect_internal_deploy_dependencies new_operation connect operations stage_op_id config_id
    operation_id type_text built_graph build_graph useless useless_pairs_of
    find_meta_operation_pairs find_useless_meta_operations is_meta_op meta_pair has_suffix
    cut_suffix
useless_eq = refl

plan_eq : squash_pairs list_graph list_edits built_graph useless ≡ ok plan
unfolding add_main_stages do_chain add_operation id noop_operation decimal add_weighted_sub_stages
    in_stage sub_stage_weighted decimal_int add_release_operations do_single release_id
    add_delete_resources_ops add_install_resource_ops connect_internal_delete_dependencies
    connect_internal_deploy_dependencies new_operation connect operations stage_op_id config_id
    operation_id type_text built_graph build_graph useless useless_pairs_of
    find_meta_operation_pairs find_useless_meta_operations is_meta_op meta_pair has_suffix
    cut_suffix squash_operation squash_pairs plan remove
plan_eq = refl

nothing_left : useless_pairs_of list_graph list_edits plan ≡ ok []
unfolding add_main_stages do_chain add_operation id noop_operation decimal add_weighted_sub_stages
    in_stage sub_stage_weighted decimal_int add_release_operations do_single release_id
    add_delete_resources_ops add_install_resource_ops connect_internal_delete_dependencies
    connect_internal_deploy_dependencies new_operation connect operations stage_op_id config_id
    operation_id type_text built_graph build_graph useless useless_pairs_of
    find_meta_operation_pairs find_useless_meta_operations is_meta_op meta_pair has_suffix
    cut_suffix squash_operation squash_pairs plan remove
nothing_left = refl

plan-Optimizes : Optimizes list_graph list_edits false built_graph plan
plan-Optimizes = record {
  reduced = built_graph;
  squashed = plan;
  reduces = refl;
  squashes = last_round useless useless_eq plan_eq nothing_left;
  finishes = refl;
}

abbrev stage_order : List String
stage_order =
    "noop/1/0/stage/init/start" ∷ "create-release/1/0/prod:app:1" ∷ "noop/1/0/stage/init/end"
    ∷ "noop/1/0/stage/pre-pre-uninstall/start" ∷ "noop/1/0/stage/pre-pre-uninstall/end"
    ∷ "noop/1/0/stage/pre-pre-install/start" ∷ "noop/1/0/stage/pre-pre-install/end"
    ∷ "noop/1/0/stage/pre-install/start" ∷ "noop/1/0/stage/pre-install/end"
    ∷ "noop/1/0/stage/pre-uninstall/start" ∷ "noop/1/0/stage/pre-uninstall/end"
    ∷ "noop/1/0/stage/install/start" ∷ "noop/1/0/stage/install/end"
    ∷ "noop/1/0/stage/uninstall/start" ∷ "noop/1/0/stage/uninstall/end"
    ∷ "noop/1/0/stage/post-install/start" ∷ "noop/1/0/stage/post-install/end"
    ∷ "noop/1/0/stage/post-uninstall/start" ∷ "noop/1/0/stage/post-uninstall/end"
    ∷ "noop/1/0/stage/post-post-install/start" ∷ "noop/1/0/stage/post-post-install/end"
    ∷ "noop/1/0/stage/post-post-uninstall/start" ∷ "noop/1/0/stage/post-post-uninstall/end"
    ∷ "noop/1/0/stage/final/start" ∷ "update-release/1/0/prod:app:1" ∷ "noop/1/0/stage/final/end"
    ∷ []

built_ranked : is_ranked (position stage_order) built_graph ≡ true
unfolding add_main_stages do_chain add_operation id noop_operation decimal add_weighted_sub_stages
    in_stage sub_stage_weighted decimal_int add_release_operations do_single release_id
    add_delete_resources_ops add_install_resource_ops connect_internal_delete_dependencies
    connect_internal_deploy_dependencies new_operation connect operations stage_op_id config_id
    operation_id type_text built_graph build_graph
built_ranked = refl

built-NoCycle : NoCycle list_graph built_graph
built-NoCycle = is_ranked-NoCycle (position stage_order) built_graph built_ranked

plan-DistinctKeys : DistinctKeys (predecessor_map plan)
unfolding add_main_stages do_chain add_operation id noop_operation decimal add_weighted_sub_stages
    in_stage sub_stage_weighted decimal_int add_release_operations do_single release_id
    add_delete_resources_ops add_install_resource_ops connect_internal_delete_dependencies
    connect_internal_deploy_dependencies new_operation connect operations stage_op_id config_id
    operation_id type_text built_graph build_graph useless useless_pairs_of
    find_meta_operation_pairs find_useless_meta_operations is_meta_op meta_pair has_suffix
    cut_suffix squash_operation squash_pairs plan remove
plan-DistinctKeys = (refl, (refl, (refl, (refl, (refl, (refl, tt))))))

plan-IsPredecessorMap : IsPredecessorMap (links plan) (predecessor_map plan)
plan-IsPredecessorMap = predecessor_map-IsPredecessorMap plan plan-DistinctKeys

abbrev create_op : Operation
create_op = create_release_op (at_status first_revision.release pending_install)

abbrev update_op : Operation
update_op = update_release_op (at_status first_revision.release deployed)

create_found : look built_graph (id create_op) ≡ some create_op
unfolding add_main_stages do_chain add_operation id noop_operation decimal add_weighted_sub_stages
    in_stage sub_stage_weighted decimal_int add_release_operations do_single release_id
    add_delete_resources_ops add_install_resource_ops connect_internal_delete_dependencies
    connect_internal_deploy_dependencies new_operation connect operations stage_op_id config_id
    operation_id type_text built_graph build_graph
create_found = refl

update_found : look built_graph (id update_op) ≡ some update_op
unfolding add_main_stages do_chain add_operation id noop_operation decimal add_weighted_sub_stages
    in_stage sub_stage_weighted decimal_int add_release_operations do_single release_id
    add_delete_resources_ops add_install_resource_ops connect_internal_delete_dependencies
    connect_internal_deploy_dependencies new_operation connect operations stage_op_id config_id
    operation_id type_text built_graph build_graph
update_found = refl

abbrev last_state : System
last_state = play 60 (initial_system (predecessor_map plan))

last_status : last_state.status (id update_op) ≡ status_completed
unfolding add_main_stages do_chain add_operation id noop_operation decimal add_weighted_sub_stages
    in_stage sub_stage_weighted decimal_int add_release_operations do_single release_id
    add_delete_resources_ops add_install_resource_ops connect_internal_delete_dependencies
    connect_internal_deploy_dependencies new_operation connect operations stage_op_id config_id
    operation_id type_text built_graph build_graph useless useless_pairs_of
    find_meta_operation_pairs find_useless_meta_operations is_meta_op meta_pair has_suffix
    cut_suffix squash_operation squash_pairs plan remove initial_system advance complete_op send_op
last_status = refl

last_started : last_state.status (id update_op) ≢ status_unknown
last_started h = absurd (cc (h, last_status))

stages_sorted : stages_sort_handler stage_init stage_final ≡ true
unfolding stages_sort_handler
stages_sorted = refl

create_before_update : Reaches (links built_graph) (id create_op) (id update_op)
create_before_update =
    build_graph-stage_order list_graph list_graph-IsGraphLib copy copy-IsCopy visit
      visit-KeepsEntries [] [] release_infos built_graph built_eq stage_init stage_final
      (id create_op) (id update_op) init-mem final-mem stages_sorted
      (placed (releases first_revision stage_init create_op (Memᴰ.head refl) installing))
      (releases first_revision stage_final update_op (Memᴰ.head refl) installed)

-- The start of a stage in the middle is squashed.
abbrev middle_op : Operation
middle_op = noop_operation "stage/install/start"

squashed : List Entry
unfolding graph_of squash_operation built_graph
squashed = graph_of (squash_operation list_graph list_edits built_graph middle_op)

squashed_eq : squash_operation list_graph list_edits built_graph middle_op ≡ ok squashed
unfolding add_main_stages do_chain add_operation id noop_operation decimal add_weighted_sub_stages
    in_stage sub_stage_weighted decimal_int add_release_operations do_single release_id
    add_delete_resources_ops add_install_resource_ops connect_internal_delete_dependencies
    connect_internal_deploy_dependencies new_operation connect operations stage_op_id config_id
    operation_id type_text built_graph build_graph useless useless_pairs_of
    find_meta_operation_pairs find_useless_meta_operations is_meta_op meta_pair has_suffix
    cut_suffix squash_operation squash_pairs plan remove squashed
squashed_eq = refl

create_other : (id middle_op == id create_op) ≡ false
unfolding add_main_stages do_chain add_operation id noop_operation decimal add_weighted_sub_stages
    in_stage sub_stage_weighted decimal_int add_release_operations do_single release_id
    add_delete_resources_ops add_install_resource_ops connect_internal_delete_dependencies
    connect_internal_deploy_dependencies new_operation connect operations stage_op_id config_id
    operation_id type_text built_graph build_graph
create_other = refl

update_other : (id middle_op == id update_op) ≡ false
unfolding add_main_stages do_chain add_operation id noop_operation decimal add_weighted_sub_stages
    in_stage sub_stage_weighted decimal_int add_release_operations do_single release_id
    add_delete_resources_ops add_install_resource_ops connect_internal_delete_dependencies
    connect_internal_deploy_dependencies new_operation connect operations stage_op_id config_id
    operation_id type_text built_graph build_graph
update_other = refl

create_lasts : IsLasting create_op
unfolding new_operation
create_lasts = inr refl

update_lasts : IsLasting update_op
unfolding new_operation
update_lasts = inr refl

executed-stage_order_example :
    (id create_op ≡ id update_op) ⊎ (last_state.status (id create_op) ≡ status_completed)
executed-stage_order_example =
    executed-stage_order list_graph list_graph-IsGraphLib copy copy-IsCopy visit visit-KeepsEntries
      [] [] release_infos built_graph built_eq list_edits list_edits-IsGraphEdits false plan
      plan-Optimizes (predecessor_map plan) (pos 1) last_state built-NoCycle plan-IsPredecessorMap
      (play-Reached (predecessor_map plan) 60 (initial_system (predecessor_map plan)) start)
      stage_init stage_final (id create_op) (id update_op) create_op update_op init-mem final-mem
      stages_sorted (releases first_revision stage_init create_op (Memᴰ.head refl) installing)
      (releases first_revision stage_final update_op (Memᴰ.head refl) installed) create_found
      update_found create_lasts update_lasts last_started

Optimizes-paths_example :
    (look plan (id create_op) ≡ some create_op)
    × (look plan (id update_op) ≡ some update_op)
    × Reaches (links plan) (id create_op) (id update_op)
Optimizes-paths_example =
    Optimizes-paths list_graph list_graph-IsGraphLib list_edits list_edits-IsGraphEdits
      (id create_op) (id update_op) false built_graph plan create_op update_op built-NoCycle
      plan-Optimizes create_found update_found create_lasts update_lasts create_before_update

squash_operation-paths_example :
    (look squashed (id middle_op) ≡ none)
    × (look squashed (id create_op) ≡ look built_graph (id create_op))
    × (Reaches (links built_graph) (id create_op) (id update_op)
        ↔ Reaches (links squashed) (id create_op) (id update_op))
squash_operation-paths_example =
    squash_operation-paths list_graph list_graph-IsGraphLib list_edits list_edits-IsGraphEdits
      built_graph squashed middle_op (id create_op) (id update_op) built-NoCycle squashed_eq
      create_other update_other
