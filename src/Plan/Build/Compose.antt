-- ===== src/Plan/Build/Compose.antt =====
-- pkg/plan/plan_build.go: BuildPlan up to the optimisation of the plan.
pub mod Built
pub mod Within
pub mod BuildOrder
pub mod Order
use nelm.Base.{List, Result, wrap_err, ◌>>=◌}
use nelm.Common.{install}
use nelm.Release.{HelmRelease}
use nelm.Plan.Operation.{delete}
use nelm.Plan.Info.{InstallableResourceInfo, DeletableResourceInfo, ReleaseInfo}
use nelm.Plan.Graph.{GraphLib}
use nelm.Plan.Build.Stages.{add_main_stages, StageWeights, add_weighted_sub_stages}
use nelm.Plan.Build.Releases.{add_release_operations}
use nelm.Plan.Build.Resources.{add_delete_resources_ops, add_install_resource_ops}
use nelm.Plan.Build.Dependencies.{
  connect_internal_deploy_dependencies, connect_internal_delete_dependencies,
}

module _ (lib : GraphLib) (copy : HelmRelease → Result HelmRelease)
    (visit : StageWeights → StageWeights) where
  open lib use {Graph, new}

  -- The graph that BuildPlan hands to Optimize.
  unfoldable pub build_graph :
      List InstallableResourceInfo → List DeletableResourceInfo → List ReleaseInfo → Result Graph
  build_graph inst_infos del_infos release_infos = do
    p₁ ← wrap_err "add main stages" (add_main_stages lib new)
    p₂ ← wrap_err "add weighted substages" (add_weighted_sub_stages lib visit p₁ inst_infos)
    p₃ ← wrap_err "add release operations" (add_release_operations lib copy p₂ release_infos)
    p₄ ← wrap_err "add delete resources operations" (add_delete_resources_ops lib p₃ del_infos)
    p₅ ← wrap_err "add install resource operations" (add_install_resource_ops lib p₄ inst_infos)
    p₆ ←
        wrap_err "connect internal dependencies"
          (connect_internal_deploy_dependencies lib p₅ inst_infos del_infos)
    wrap_err "connect internal delete dependencies"
        (connect_internal_delete_dependencies lib p₆ del_infos inst_infos)
