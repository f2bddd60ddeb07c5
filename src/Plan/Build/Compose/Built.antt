-- ===== src/Plan/Build/Compose/Built.antt =====
-- What a graph built without an error contains (BuildPlan in pkg/plan/plan_build.go).

-- What the infos ask of the graph.
use nelm.Base.{
  none, some, List, Memᴰ, ◌≡◌, Result, ok, wrap_err, All, All-map, >>=-eq-ok, wrap_err-eq-ok,
}
use nelm.Common.{stages_ordered}
use nelm.Resource.{IntPtr}
use nelm.Release.{HelmRelease}
use nelm.Plan.Info.{InstallableResourceInfo, DeletableResourceInfo, ReleaseInfo}
use nelm.Plan.Graph.{GraphLib, IsGraphLib}
use nelm.Plan.Build.Stages.{add_main_stages, StageWeights, add_weighted_sub_stages}
use nelm.Plan.Build.Releases.{add_release_operations}
use nelm.Plan.Build.Resources.{add_delete_resources_ops, add_install_resource_ops}
use nelm.Plan.Build.Dependencies.{connect_internal_deploy_dependencies}
use nelm.Plan.Build.Compose.{build_graph}
use nelm.Plan.Build.Resources.InstallSteps.{install_steps}
use nelm.Plan.Build.Dependencies.Edges.{
  DeployWaits, connect_internal_deploy_dependencies-DeployWaits, DeployWaits-Connects,
}
use nelm.Plan.Build.Dependencies.DeleteEdges.{
  connect_internal_delete_dependencies-DeleteWaits, DeleteWaits,
}
use nelm.Plan.Build.Resources.Placed.{
  delete_steps, Deleted, add_delete_resources_ops-Placed, add_install_resource_ops-Placed,
}
use nelm.Plan.Build.Releases.Placed.{
  ReleasePlaced, ReleasePlaced-mono, IsCopy, add_release_operations-Placed,
}
use nelm.Plan.Build.Stages.Main.{add_main_stages-MainStages, MainStages, MainStages-mono}
use nelm.Plan.Build.Stages.Weighted.{
  KeepsEntries, WeightPlaced, WeightPlaced-mono, add_weighted_sub_stages-Placed,
}
use nelm.Plan.Chain.Placement.{
  Extends-trans, Connects-trans, Connects-Extends, NamesNoops, Chained, Chained-mono,
}

module _ (lib : GraphLib) where
  open lib use {Graph}

  pub record Built (inst_infos : List InstallableResourceInfo)
      (del_infos : List DeletableResourceInfo) (release_infos : List ReleaseInfo) (g : Graph)
      : Type 0 where
    pub stages : MainStages lib stages_ordered g
    pub weights :
        (info : InstallableResourceInfo) (w : IntPtr)
        → Memᴰ info inst_infos
        → info.local_resource.weight ≡ some w
        → WeightPlaced lib g info.stage w.value
    pub releases : All (λ info. ReleasePlaced lib g info.release info.must) release_infos
    pub deletes : All (Deleted lib g) del_infos
    pub installs : All (λ info. Chained lib g none (install_steps info)) inst_infos
    pub waits : All (DeployWaits lib inst_infos del_infos g) inst_infos
    pub delete_waits : All (DeleteWaits lib del_infos inst_infos g) del_infos

module _ (lib : GraphLib) (laws : IsGraphLib lib) (copy : HelmRelease → Result HelmRelease)
    (copies : IsCopy copy) (visit : StageWeights → StageWeights) (keeps : KeepsEntries visit) where
  open lib use {Graph, new}

  new-NamesNoops : NamesNoops lib new
  new-NamesNoops i op h = absurd (cc (rw (laws.vertex-new i) at h))

  pub build_graph-Built :
      (inst_infos : List InstallableResourceInfo) (del_infos : List DeletableResourceInfo)
      (release_infos : List ReleaseInfo) (g : Graph)
      → build_graph lib copy visit inst_infos del_infos release_infos ≡ ok g
      → Built lib inst_infos del_infos release_infos g
  unfolding build_graph
  build_graph-Built inst_infos del_infos release_infos g h =
      let (g₁, e₁, h₁) = >>=-eq-ok (wrap_err "add main stages" (add_main_stages lib new)) _ h in
      let (g₂, e₂, h₂) =
        >>=-eq-ok (wrap_err _ (add_weighted_sub_stages lib visit g₁ inst_infos)) _ h₁ in
      let (g₃, e₃, h₃) =
        >>=-eq-ok (wrap_err _ (add_release_operations lib copy g₂ release_infos)) _ h₂ in
      let (g₄, e₄, h₄) = >>=-eq-ok (wrap_err _ (add_delete_resources_ops lib g₃ del_infos)) _ h₃ in
      let (g₅, e₅, h₅) = >>=-eq-ok (wrap_err _ (add_install_resource_ops lib g₄ inst_infos)) _ h₄ in
      let (g₆, e₆, h₆) =
        >>=-eq-ok (wrap_err _ (connect_internal_deploy_dependencies lib g₅ inst_infos del_infos)) _
          h₅ in
      let (x₁, stages) =
        add_main_stages-MainStages lib laws new g₁ new-NamesNoops (wrap_err-eq-ok _ _ e₁) in
      let n₁ = x₁.names new-NamesNoops in
      let (x₂, weights) =
        add_weighted_sub_stages-Placed lib laws visit keeps g₁ inst_infos g₂ n₁
          (wrap_err-eq-ok _ _ e₂) in
      let n₂ = x₂.names n₁ in
      let (x₃, releases) =
        add_release_operations-Placed lib laws copy copies g₂ release_infos g₃ n₂
          (wrap_err-eq-ok _ _ e₃) in
      let n₃ = x₃.names n₂ in
      let (x₄, deletes) =
        add_delete_resources_ops-Placed lib laws g₃ del_infos g₄ n₃ (wrap_err-eq-ok _ _ e₄) in
      let n₄ = x₄.names n₃ in
      let (x₅, installs) =
        add_install_resource_ops-Placed lib laws g₄ inst_infos g₅ n₄ (wrap_err-eq-ok _ _ e₅) in
      let (c₆, waits) =
        connect_internal_deploy_dependencies-DeployWaits lib laws inst_infos del_infos g₅ g₆
          (wrap_err-eq-ok _ _ e₆) in
      let (c₇, delete_waits) =
        connect_internal_delete_dependencies-DeleteWaits lib laws del_infos inst_infos g₆ g
          (wrap_err-eq-ok _ _ h₆) in
      let y₅ = Connects-Extends lib (Connects-trans lib c₆ c₇) in
      let y₄ = Extends-trans lib x₅.extends y₅ in
      let y₃ = Extends-trans lib x₄.extends y₄ in
      let y₂ = Extends-trans lib x₃.extends y₃ in
      let y₁ = Extends-trans lib x₂.extends y₂ in
      record {
        stages = MainStages-mono lib y₁ stages;
        weights = λ info w m e. WeightPlaced-mono lib y₂ (weights info w m e);
        releases =
            All-map (λ info p. ReleasePlaced-mono lib info.release info.must y₃ p) release_infos
              releases;
        deletes =
            All-map (λ info p must. Chained-mono lib none (delete_steps info) y₄ (p must)) del_infos
              deletes;
        installs =
            All-map (λ info p. Chained-mono lib none (install_steps info) y₅ p) inst_infos installs;
        waits = DeployWaits-Connects lib laws inst_infos del_infos inst_infos c₇ waits;
        delete_waits = delete_waits;
      }
