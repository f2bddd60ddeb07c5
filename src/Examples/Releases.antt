-- ===== src/Examples/Releases.antt =====
-- The theorems on histories and release infos, applied to a history of three revisions.
use nelm.Base.{
  some-injective, Option, Err, message, panic, none, some, ℕ, true, false, none, some, List, [],
  ◌∷◌, ◌++◌, map, Memᴰ, ◌≡◌, refl, ap, sym, Result, ok, if◌then◌else◌, filter_by, nat_eq, decimal,
  decimal_int,
}
use nelm.Common.{upgrade, uninstall, sub_stage_weighted}
use nelm.Spec.{resource_id, match}
use nelm.Release.{
  Status, unknown, deployed, uninstalled, superseded, pending_upgrade, HelmRelease, release_id,
}
use nelm.Release.History.{
  create_release, update_release, delete_release, Storage, History, stamp, is_uninstalled,
  was_deployed, find_last_index, find_all_deployed, find_revision,
}
use nelm.Plan.Operation.{
  category_resource, type_create, type_text, create, config_id, Operation, operation_id, id,
}
use nelm.Plan.Info.{
  release_upgrade, release_supersede, release_uninstall, release_delete, ReleaseInfo,
}
use nelm.Plan.ReleaseInfos.{is_deployed, build_release_infos}
use nelm.Plan.ReleaseInfos.Described.{
  info_for, build_release_infos-deploy, build_release_infos-uninstall, upgrade-order,
}
use nelm.Release.History.Deployed.{since, find_all_deployed-since}
use nelm.Release.History.Revisions.{create_release-find, update_release-find, delete_release-find}
use nelm.Plan.Graph.Paths.{Reaches}
use nelm.Plan.Chain.{
  add_operation, in_stage, skip_on_duplicate, stage_op_id, connect, operations, do_chain,
}
use nelm.Plan.Build.{new_operation, noop_operation, do_single}
use nelm.Plan.Build.Stages.{add_main_stages, add_weighted_sub_stages}
use nelm.Plan.Build.Releases.{add_release_operations}
use nelm.Plan.Build.Resources.{
  add_delete_resources_ops, install_stage, track_readiness_op, is_install_none, install_chain,
  add_install_resource_ops,
}
use nelm.Plan.Build.Dependencies.{
  deploy_type, get_deploy_op, get_delete_op, find_deploy_op_in_stage,
  find_track_readiness_op_in_stage, find_track_absence_op_in_stage, depend_upon_op,
  connect_internal_deploy_dependencies, connect_internal_delete_dependencies,
}
use nelm.Examples.ListGraph.{Entry, links, list_graph, list_graph-IsGraphLib}
use nelm.Examples.Deployment.{
  config, inst_infos, copy, visit, del_infos, copy-IsCopy, visit-KeepsEntries,
}
use nelm.Plan.Build.Compose.{build_graph}
use nelm.Plan.Build.Releases.Placed.{create_release_op, update_release_op, at_status}

abbrev revision : ℕ → Status → HelmRelease
revision n status = record {
  name = "app";
  namespace = "prod";
  version = n;
  status = status;
  first_deployed = 0;
  last_deployed = 0;
}

-- A storage that always succeeds and returns what was asked for.
abbrev storage : Storage
storage = record {
  create = λ rel. ok tt;
  update = λ rel. ok tt;
  delete = λ name n. (some (revision n deployed), none);
}

abbrev three : List HelmRelease
three = revision 1 uninstalled ∷ revision 2 superseded ∷ revision 3 deployed ∷ []

abbrev history : History
history = record { release_name = "app"; releases = three; storage = storage }

find_all_deployed_test :
    find_all_deployed history ≡ revision 2 superseded ∷ revision 3 deployed ∷ []
unfolding find_all_deployed find_last_index is_uninstalled was_deployed
find_all_deployed_test = refl

find_all_deployed-since_example :
    find_all_deployed history
    ≡ filter_by (λ r. was_deployed r.status) (since (λ r. is_uninstalled r.status) three)
find_all_deployed-since_example = find_all_deployed-since history

create_release-find_example :
    find_revision (record history { releases = three ++ stamp 9 (revision 4 deployed) ∷ [] }) 4
    ≡ some (stamp 9 (revision 4 deployed))
unfolding create_release
create_release-find_example =
    create_release-find 9 history
      (record history { releases = three ++ stamp 9 (revision 4 deployed) ∷ [] })
      (revision 4 deployed) (refl, (refl, (refl, tt))) refl

abbrev after_update : History
after_update = record history {
  releases = revision 1 uninstalled ∷ revision 2 superseded ∷ stamp 9 (revision 3 superseded) ∷ [];
}

updated : update_release 9 history (revision 3 superseded) ≡ ok after_update
unfolding update_release
updated = refl

update_release-find_example :
    find_revision after_update 2
    ≡ (if nat_eq 3 2 then some (stamp 9 (revision 3 superseded)) else find_revision history 2)
update_release-find_example =
    update_release-find 9 history after_update (revision 3 superseded) 2 updated

abbrev after_delete : History
after_delete = record history { releases = revision 1 uninstalled ∷ revision 3 deployed ∷ [] }

deleted : delete_release history "app" 2 ≡ ok after_delete
unfolding delete_release
deleted = refl

delete_release-find_example :
    find_revision after_delete 2 ≡ (if nat_eq 2 2 then none else find_revision history 2)
delete_release-find_example =
    delete_release-find history after_delete "app" 2 2 ((refl, (refl, tt)), ((refl, tt), (tt, tt)))
      (λ rel e.
        ap (λ (r : HelmRelease). r.version)
          (sym (some-injective (ap (λ (a : Option HelmRelease × Option Err). a.0) e))))
      deleted

-- Where the storage fails and returns no release beside the error, the message reads a nil pointer.
delete_release_panics :
    delete_release
      (record history {
        storage = record storage { delete = λ name n. (none, some (message "not found")) };
      })
      "app"
      2
    ≡ panic
unfolding delete_release
delete_release_panics = refl

build_release_infos-deploy_example :
    build_release_infos upgrade three (revision 4 unknown)
    ≡ info_for release_upgrade true (revision 4 unknown)
      ∷ map (info_for release_supersede false) (filter_by (λ r. is_deployed r.status) three)
build_release_infos-deploy_example =
    build_release_infos-deploy upgrade three (revision 4 unknown) (λ h. cc)

build_release_infos-uninstall_example :
    build_release_infos uninstall three (revision 4 unknown)
    ≡ map (info_for release_delete false) (revision 1 uninstalled ∷ revision 2 superseded ∷ [])
      ++ info_for release_uninstall true (revision 3 deployed) ∷ []
build_release_infos-uninstall_example =
    build_release_infos-uninstall (revision 1 uninstalled ∷ revision 2 superseded ∷ [])
      (revision 3 deployed) (revision 4 unknown)

-- An upgrade from the third revision to a fourth.
upgraded_graph_of : Result (List Entry) → List Entry
upgraded_graph_of (ok g) = g
upgraded_graph_of _ = []

abbrev upgrade_infos : List ReleaseInfo
upgrade_infos =
    info_for release_upgrade true (revision 4 unknown)
    ∷ info_for release_supersede false (revision 3 deployed)
    ∷ []

unfoldable upgraded_graph : List Entry
unfolding upgraded_graph_of build_graph
upgraded_graph =
    upgraded_graph_of (build_graph list_graph copy visit inst_infos del_infos upgrade_infos)

upgrade_built :
    build_graph list_graph copy visit inst_infos del_infos
      (build_release_infos upgrade three (revision 4 unknown))
    ≡ ok upgraded_graph
unfolding add_main_stages do_chain add_operation id noop_operation decimal add_weighted_sub_stages
    in_stage sub_stage_weighted decimal_int add_release_operations do_single release_id
    add_delete_resources_ops resource_id add_install_resource_ops track_readiness_op
    connect_internal_delete_dependencies connect_internal_deploy_dependencies depend_upon_op
    deploy_type find_deploy_op_in_stage find_track_absence_op_in_stage
    find_track_readiness_op_in_stage get_delete_op get_deploy_op install_chain install_stage
    is_install_none new_operation connect operations skip_on_duplicate stage_op_id config_id
    operation_id type_text match build_graph upgraded_graph is_deployed build_release_infos
upgrade_built = refl

abbrev config_op : Operation
config_op =
    new_operation type_create category_resource 0
      (create config.local_resource.spec config.local_resource.default_replicas_on_creation)

upgrade-order_example :
    Reaches
      (links upgraded_graph)
      (id (create_release_op (at_status (revision 4 unknown) pending_upgrade)))
      (id config_op)
    × Reaches
        (links upgraded_graph)
        (id config_op)
        (id (update_release_op (at_status (revision 3 deployed) superseded)))
unfolding is_deployed
upgrade-order_example =
    upgrade-order list_graph list_graph-IsGraphLib copy copy-IsCopy visit visit-KeepsEntries
      inst_infos del_infos three (revision 4 unknown) upgraded_graph upgrade_built config config_op
      (revision 3 deployed) (Memᴰ.head refl) refl refl (Memᴰ.tail (Memᴰ.tail (Memᴰ.head refl))) refl
