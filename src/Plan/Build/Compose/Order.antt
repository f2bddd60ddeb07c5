-- ===== src/Plan/Build/Compose/Order.antt =====
-- The order of the operations of a built graph (BuildPlan in pkg/plan/plan_build.go).
use mathlib.Core.List.Memᴰ
use nelm.Base.{String, true, false, none, some, List, ◌++◌, Memᴰ, ◌≡◌, refl, ◌==◌, All-at}
use nelm.Common.{Stage, stage_init, stage_final, stages_ordered, stages_sort_handler}
use nelm.Common.Order.{stages_sort_handler-Before}
use nelm.Resource.{ExternalDependency}
use nelm.Release.{
  deployed, superseded, uninstalling, pending_install, pending_upgrade, pending_rollback,
  HelmRelease,
}
use nelm.Plan.Operation.{Operation, id}
use nelm.Plan.Info.{
  InstallableResourceInfo, DeletableResourceInfo, ReleaseType, release_install, release_upgrade,
  release_rollback, release_supersede, release_uninstall, release_delete, ReleaseInfo,
}
use nelm.Plan.Graph.{GraphLib}
use nelm.Plan.Graph.Paths.{Reaches, Reaches-trans}
use nelm.Plan.Chain.{BuilderStep}
use nelm.Plan.Build.Resources.{track_readiness_op}
use nelm.Plan.Build.Compose.Built.{Built}
use nelm.Plan.Build.Compose.Within.{
  append-Reaches, stage-ne-empty, Placed-Within, Chained-Placed, stage_of-Within,
}
use nelm.Plan.Chain.Builder.{staged_step, skipping_step}
use nelm.Plan.Build.Resources.InstallSteps.{
  deploy_op, presence_op, cleanup_op, cleanup_track_op, stage_of, presence_steps, deploy_steps,
  track_steps, cleanup_steps, install_steps, deploy_mem, track_mem, cleanup_mem, cleanup_track_mem,
  presence_mem,
}
use nelm.Plan.Build.Resources.Placed.{delete_op, absence_op, delete_steps, Deleted}
use nelm.Plan.Build.Releases.Placed.{
  create_release_op, update_release_op, delete_release_op, at_status, ReleasePlaced,
}
use nelm.Plan.Build.Stages.Main.{Within, stage_to_stage}
use nelm.Plan.Chain.Placement.{Placed, Chained}

-- The operations that the releases ask for, each with the stage that it belongs to.
pub data ReleaseOp (rel : HelmRelease) : ReleaseType → Stage → Operation → Type 0 where
  installing :
      ReleaseOp rel release_install stage_init (create_release_op (at_status rel pending_install))
  upgrading :
      ReleaseOp rel release_upgrade stage_init (create_release_op (at_status rel pending_upgrade))
  rolling_back :
      ReleaseOp rel release_rollback stage_init (create_release_op (at_status rel pending_rollback))
  installed : ReleaseOp rel release_install stage_final (update_release_op (at_status rel deployed))
  upgraded : ReleaseOp rel release_upgrade stage_final (update_release_op (at_status rel deployed))
  rolled_back :
      ReleaseOp rel release_rollback stage_final (update_release_op (at_status rel deployed))
  superseding :
      ReleaseOp rel release_supersede stage_final (update_release_op (at_status rel superseded))
  uninstalling_first :
      ReleaseOp rel release_uninstall stage_init (update_release_op (at_status rel uninstalling))
  uninstalled_last : ReleaseOp rel release_uninstall stage_final (delete_release_op rel)
  deleting : ReleaseOp rel release_delete stage_final (delete_release_op rel)

-- The operations that the infos ask for, each with the stage that it belongs to, but for those that
-- track the presence of external dependencies.
pub data PlacedAs (inst_infos : List InstallableResourceInfo)
    (del_infos : List DeletableResourceInfo) (release_infos : List ReleaseInfo)
    : Stage → String → Type 0 where
  deploys :
      (info : InstallableResourceInfo) (op : Operation)
      → Memᴰ info inst_infos
      → deploy_op info info.must_install ≡ some op
      → PlacedAs inst_infos del_infos release_infos info.stage (id op)
  tracks :
      (info : InstallableResourceInfo)
      → Memᴰ info inst_infos
      → info.must_track_readiness ≡ true
      → PlacedAs inst_infos del_infos release_infos info.stage (id (track_readiness_op info))
  cleans :
      (info : InstallableResourceInfo)
      → Memᴰ info inst_infos
      → info.must_delete_on_successful_install ≡ true
      → PlacedAs inst_infos del_infos release_infos info.stage_delete_on_successful_install
          (id (cleanup_op info))
  awaits_cleanup :
      (info : InstallableResourceInfo)
      → Memᴰ info inst_infos
      → info.must_delete_on_successful_install ≡ true
      → PlacedAs inst_infos del_infos release_infos info.stage_delete_on_successful_install
          (id (cleanup_track_op info))
  deletes :
      (info : DeletableResourceInfo)
      → Memᴰ info del_infos
      → info.must_delete ≡ true
      → PlacedAs inst_infos del_infos release_infos info.stage (id (delete_op info))
  awaits :
      (info : DeletableResourceInfo)
      → Memᴰ info del_infos
      → info.must_delete ≡ true
      → info.must_track_absence ≡ true
      → PlacedAs inst_infos del_infos release_infos info.stage (id (absence_op info))
  releases :
      (info : ReleaseInfo) (stage : Stage) (op : Operation)
      → Memᴰ info release_infos
      → ReleaseOp info.release info.must stage op
      → PlacedAs inst_infos del_infos release_infos stage (id op)

-- What comes before the later stages of an operation's own stage: each operation that is placed in
-- the stage, and the one that tracks the presence of an external dependency of a resource deployed in
-- it. Several resources share one such operation, which stands in the stage of the first of them.
pub data PlacedBy (inst_infos : List InstallableResourceInfo)
    (del_infos : List DeletableResourceInfo) (release_infos : List ReleaseInfo)
    : Stage → String → Type 0 where
  placed :
      {stage : Stage} {i : String}
      → PlacedAs inst_infos del_infos release_infos stage i
      → PlacedBy inst_infos del_infos release_infos stage i
  awaited :
      (info : InstallableResourceInfo) (dep : ExternalDependency) (op : Operation)
      → Memᴰ info inst_infos
      → Memᴰ dep info.local_resource.external_dependencies
      → deploy_op info info.must_install ≡ some op
      → PlacedBy inst_infos del_infos release_infos info.stage (id (presence_op dep))

module _ (lib : GraphLib) where
  open lib use {Graph, edge}

  ReleaseOp-Placed :
      (g : Graph) (rel : HelmRelease) (t : ReleaseType) (stage : Stage) (op : Operation)
      → ReleaseOp rel t stage op
      → ReleasePlaced lib g rel t
      → Placed lib g (staged_step op stage)
  ReleaseOp-Placed g rel t stage op installing p = p.0
  ReleaseOp-Placed g rel t stage op upgrading p = p.0
  ReleaseOp-Placed g rel t stage op rolling_back p = p.0
  ReleaseOp-Placed g rel t stage op installed p = p.1
  ReleaseOp-Placed g rel t stage op upgraded p = p.1
  ReleaseOp-Placed g rel t stage op rolled_back p = p.1
  ReleaseOp-Placed g rel t stage op superseding p = p
  ReleaseOp-Placed g rel t stage op uninstalling_first p = p.0
  ReleaseOp-Placed g rel t stage op uninstalled_last p = p.1
  ReleaseOp-Placed g rel t stage op deleting p = p

  module _ (inst_infos : List InstallableResourceInfo) (del_infos : List DeletableResourceInfo)
      (release_infos : List ReleaseInfo) (g : Graph)
      (b : Built lib inst_infos del_infos release_infos g) where
    -- A step of the chain of an info.
    step-Placed :
        (info : InstallableResourceInfo) (s : BuilderStep)
        → Memᴰ info inst_infos
        → Memᴰ s (install_steps info)
        → Placed lib g s
    step-Placed info s m ms =
        Chained-Placed lib g none (install_steps info) s
          (All-at (λ i. Chained lib g none (install_steps i)) info inst_infos m b.installs) ms

    delete-Placed :
        (info : DeletableResourceInfo) (s : BuilderStep)
        → Memᴰ info del_infos
        → info.must_delete ≡ true
        → Memᴰ s (delete_steps info)
        → Placed lib g s
    delete-Placed info s m d ms =
        Chained-Placed lib g none (delete_steps info) s
          (All-at (Deleted lib g) info del_infos m b.deletes d) ms

    -- Each of these operations is within its stage.
    PlacedAs-Within :
        (stage : Stage) (i : String)
        → (stage == "") ≡ false
        → PlacedAs inst_infos del_infos release_infos stage i
        → Within lib g stage i
    unfolding install_steps
    PlacedAs-Within stage i n (deploys info op m e) =
        stage_of-Within lib g info op n (λ w. b.weights info w m)
          (step-Placed info (staged_step op (stage_of info)) m (
            Memᴰ.append_right (presence_steps info)
              (Memᴰ.append_left (track_steps info ++ cleanup_steps info) (deploy_mem info op e))))
    PlacedAs-Within stage i n (tracks info m e) =
        stage_of-Within lib g info (track_readiness_op info) n (λ w. b.weights info w m)
          (step-Placed info (staged_step (track_readiness_op info) (stage_of info)) m (
            Memᴰ.append_right (presence_steps info) (
              Memᴰ.append_right (deploy_steps info info.must_install)
                (Memᴰ.append_left (cleanup_steps info) (track_mem info e)))))
    PlacedAs-Within stage i n (cleans info m e) =
        Placed-Within lib g (cleanup_op info) info.stage_delete_on_successful_install n (
          step-Placed info (staged_step (cleanup_op info) info.stage_delete_on_successful_install) m
            (Memᴰ.append_right (presence_steps info) (
              Memᴰ.append_right (deploy_steps info info.must_install)
                (Memᴰ.append_right (track_steps info) (cleanup_mem info e)))))
    PlacedAs-Within stage i n (awaits_cleanup info m e) =
        Placed-Within lib g (cleanup_track_op info) info.stage_delete_on_successful_install n (
          step-Placed info
            (staged_step (cleanup_track_op info) info.stage_delete_on_successful_install) m
            (Memᴰ.append_right (presence_steps info) (
              Memᴰ.append_right (deploy_steps info info.must_install)
                (Memᴰ.append_right (track_steps info) (cleanup_track_mem info e)))))
    PlacedAs-Within stage i n (deletes info m d) =
        Placed-Within lib g (delete_op info) info.stage n
          (delete-Placed info (staged_step (delete_op info) info.stage) m d (Memᴰ.head refl))
    PlacedAs-Within stage i n (awaits info m d t) =
        Placed-Within lib g (absence_op info) info.stage n (
          delete-Placed info (staged_step (absence_op info) info.stage) m d
            (Memᴰ.tail (rw t (Memᴰ.head refl))))
    PlacedAs-Within stage i n (releases info s op m r) = Placed-Within lib g op s n (
        ReleaseOp-Placed g info.release info.must s op r
          (All-at (λ k. ReleasePlaced lib g k.release k.must) info release_infos m b.releases))

    -- An external dependency is tracked before the deployment that waits for it.
    pub Built-presence :
        (info : InstallableResourceInfo) (dep : ExternalDependency) (op : Operation)
        → Memᴰ info inst_infos
        → Memᴰ dep info.local_resource.external_dependencies
        → deploy_op info info.must_install ≡ some op
        → Reaches (edge g) (id (presence_op dep)) (id op)
    unfolding install_steps
    Built-presence info dep op m md e =
        append-Reaches lib g none (presence_steps info)
          (deploy_steps info info.must_install ++ (track_steps info ++ cleanup_steps info))
          (skipping_step (presence_op dep) (stage_of info)) (staged_step op (stage_of info))
          (All-at (λ i. Chained lib g none (install_steps i)) info inst_infos m b.installs)
          (presence_mem info dep op md e)
          (Memᴰ.append_left (track_steps info ++ cleanup_steps info) (deploy_mem info op e))

    pub Built-order :
        (a c : Stage) (i j : String)
        → Memᴰ a stages_ordered
        → Memᴰ c stages_ordered
        → stages_sort_handler a c ≡ true
        → PlacedAs inst_infos del_infos release_infos a i
        → PlacedAs inst_infos del_infos release_infos c j
        → Reaches (edge g) i j
    Built-order a c i j ma mc sorted pi pj =
        stage_to_stage lib b.stages (stages_sort_handler-Before a c ma mc sorted)
          (PlacedAs-Within a i (stage-ne-empty a ma) pi)
          (PlacedAs-Within c j (stage-ne-empty c mc) pj)

    pub PlacedBy-order :
        (a c : Stage) (i j : String)
        → Memᴰ a stages_ordered
        → Memᴰ c stages_ordered
        → stages_sort_handler a c ≡ true
        → PlacedBy inst_infos del_infos release_infos a i
        → PlacedAs inst_infos del_infos release_infos c j
        → Reaches (edge g) i j
    PlacedBy-order a c i j ma mc sorted (placed p) pj = Built-order a c i j ma mc sorted p pj
    PlacedBy-order a c i j ma mc sorted (awaited info dep op m md e) pj =
        Reaches-trans (Built-presence info dep op m md e)
          (Built-order info.stage c (id op) j ma mc sorted (deploys info op m e) pj)
