-- ===== src/Examples/Failure.antt =====
-- The failure plans of a deployment whose only resource did not become ready (pkg/plan).
use nelm.Base.{
  true, false, none, some, List, [], ◌∷◌, Memᴰ, ◌≡◌, ◌≢◌, refl, Result, ok, any, decimal,
}
use nelm.Common.{stage_init}
use nelm.Spec.{resource_id}
use nelm.Release.{failed, pending_install, release_id}
use nelm.Plan.Operation.{
  status_completed, status_failed, type_text, config_id, Operation, operation_id, id,
}
use nelm.Plan.Info.{InstallableResourceInfo}
use nelm.Plan.Execute.{remove}
use nelm.Plan.Optimize.{squash_operation}
use nelm.Examples.ListEdits.{list_edits, list_edits-IsGraphEdits}
use nelm.Plan.Build.Failure.{
  created_release, failed_tracking_id, already_deleted, build_failure_graph,
}
use nelm.Plan.Build.Failure.Marked.{
  build_failure_graph-marked, build_failure_graph-deletes, failure_steps,
}
use nelm.Plan.Build.Failure.Missing.{build_failure_graph-squashed}
use nelm.Plan.Chain.{add_operation, in_stage, stage_op_id, connect, operations, do_chain}
use nelm.Plan.Build.{new_operation, noop_operation, do_single}
use nelm.Plan.Build.Stages.{add_main_stages}
use nelm.Plan.Build.Resources.{track_readiness_op}
use nelm.Examples.ListGraph.{Entry, look, list_graph, list_graph-IsGraphLib}
use nelm.Examples.Deployment.{config, first_revision, copy, release_infos, copy-IsCopy}
use nelm.Plan.Chain.Builder.{staged_step}
use nelm.Plan.Build.Releases.Placed.{create_release_op, update_release_op, at_status}
use nelm.Plan.Chain.Placement.{Placed, Chained}

abbrev fragile : InstallableResourceInfo
fragile = record config { must_delete_on_failed_install = true }

abbrev created : Operation
created = record (create_release_op (at_status first_revision.release pending_install)) {
  status = status_completed;
}

abbrev tracked : Operation
tracked = record (track_readiness_op fragile) { status = status_failed }

abbrev failed_plan : List Entry
failed_plan = (created, []) ∷ (tracked, []) ∷ []

failed_ops : operations list_graph failed_plan ≡ ok (created ∷ tracked ∷ [])
unfolding operations id operation_id type_text config_id track_readiness_op new_operation decimal
    release_id resource_id
failed_ops = refl

graph_of : Result (List Entry) → List Entry
graph_of (ok g) = g
graph_of _ = []

failure_graph : List Entry
unfolding graph_of build_failure_graph
failure_graph =
    graph_of (build_failure_graph list_graph copy failed_plan (fragile ∷ []) release_infos)

failure_graph_eq :
    build_failure_graph list_graph copy failed_plan (fragile ∷ []) release_infos ≡ ok failure_graph
unfolding add_main_stages do_chain add_operation id noop_operation decimal in_stage do_single
    release_id resource_id track_readiness_op new_operation connect operations stage_op_id config_id
    operation_id type_text failure_graph build_failure_graph
failure_graph_eq = refl

was_created : any (created_release first_revision.release) (created ∷ tracked ∷ []) ≡ true
unfolding created_release release_id new_operation decimal
was_created = refl

tracking_found : look failed_plan (failed_tracking_id fragile) ≡ some tracked
unfolding failed_tracking_id id operation_id type_text config_id track_readiness_op new_operation
    decimal release_id resource_id
tracking_found = refl

not_deleted : already_deleted fragile (created ∷ tracked ∷ []) ≡ ok false
unfolding already_deleted
not_deleted = refl

build_failure_graph-marked_example :
    Placed list_graph failure_graph
      (staged_step (update_release_op (at_status first_revision.release failed)) stage_init)
build_failure_graph-marked_example =
    build_failure_graph-marked list_graph list_graph-IsGraphLib failed_plan (created ∷ tracked ∷ [])
      failed_ops copy copy-IsCopy (fragile ∷ []) release_infos failure_graph failure_graph_eq
      first_revision (Memᴰ.head refl) refl was_created

build_failure_graph-deletes_example : Chained list_graph failure_graph none (failure_steps fragile)
build_failure_graph-deletes_example =
    build_failure_graph-deletes list_graph list_graph-IsGraphLib failed_plan
      (created ∷ tracked ∷ []) failed_ops copy copy-IsCopy (fragile ∷ []) release_infos
      failure_graph failure_graph_eq fragile tracked (Memᴰ.head refl) refl tracking_found refl
      not_deleted

-- The tracking of the resource with the release operation before it.
abbrev tracking_plan : List Entry
tracking_plan =
    (created, id (track_readiness_op fragile) ∷ []) ∷ (track_readiness_op fragile, []) ∷ []

tracking_squashed :
    squash_operation list_graph list_edits tracking_plan (track_readiness_op fragile)
    ≡ ok ((created, []) ∷ [])
unfolding squash_operation id operation_id type_text config_id track_readiness_op new_operation
    decimal release_id resource_id remove
tracking_squashed = refl

build_failure_graph-squashed_example :
    build_failure_graph list_graph copy ((created, []) ∷ []) (fragile ∷ []) release_infos
    ≢ ok failure_graph
build_failure_graph-squashed_example =
    build_failure_graph-squashed list_graph list_graph-IsGraphLib list_edits list_edits-IsGraphEdits
      copy tracking_plan ((created, []) ∷ []) (fragile ∷ []) release_infos fragile failure_graph
      tracking_squashed (Memᴰ.head refl) refl
