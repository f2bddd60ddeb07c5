-- ===== src/Plan/ReleaseInfos.antt =====
-- pkg/plan/release_info.go: what is to be done with each revision of a release.
pub mod Described
use nelm.Base.{ℕ, suc, ◌-◌, Bool, true, false, List, [], ◌∷◌, must, if◌then◌else◌, length, nat_eq}
use nelm.Common.{DeployType, initial, install, upgrade, rollback, uninstall}
use nelm.Release.{Status, deployed, HelmRelease}
use nelm.Plan.Info.{
  ReleaseType, release_install, release_upgrade, release_rollback, release_supersede,
  release_uninstall, release_delete, ReleaseInfo,
}

unfoldable pub is_deployed : Status → Bool
is_deployed deployed = true
is_deployed _ = false

-- The loop over prevReleases in the first three cases.
supersede_infos : List HelmRelease → List ReleaseInfo
unfolding is_deployed
supersede_infos [] = []
supersede_infos (rel ∷ rels) =
    let rest = supersede_infos rels in
    if is_deployed rel.status
    then record { release = rel; must = release_supersede; must_fail_on_failed_deploy = false }
      ∷ rest
    else rest

-- The loop of the last case, from the index i on in a list of the given length.
uninstall_infos : ℕ → ℕ → List HelmRelease → List ReleaseInfo
uninstall_infos count i [] = []
uninstall_infos count i (rel ∷ rels) =
    (if nat_eq i (count - 1)
      then record { release = rel; must = release_uninstall; must_fail_on_failed_deploy = true }
      else record { release = rel; must = release_delete; must_fail_on_failed_deploy = false })
    ∷ uninstall_infos count (suc i) rels

new_info : ReleaseType → HelmRelease → ReleaseInfo
new_info must rel = record { release = rel; must = must; must_fail_on_failed_deploy = true }

unfoldable pub build_release_infos : DeployType → List HelmRelease → HelmRelease → List ReleaseInfo
unfolding supersede_infos uninstall_infos new_info is_deployed
build_release_infos initial prev_releases new_rel =
    new_info release_install new_rel ∷ supersede_infos prev_releases
build_release_infos install prev_releases new_rel =
    new_info release_install new_rel ∷ supersede_infos prev_releases
build_release_infos upgrade prev_releases new_rel =
    new_info release_upgrade new_rel ∷ supersede_infos prev_releases
build_release_infos rollback prev_releases new_rel =
    new_info release_rollback new_rel ∷ supersede_infos prev_releases
build_release_infos uninstall prev_releases new_rel =
    uninstall_infos (length prev_releases) 0 prev_releases
