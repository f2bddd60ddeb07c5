-- ===== src/Plan/ReleaseInfos/Described.antt =====
-- BuildReleaseInfos (pkg/plan/release_info.go) against a description that uses no loop, and what a
-- plan built from its infos does.
use mathlib.Core.List.Memᴰ
use mathlib.Core.Logic.{⊎_elim}
use nelm.Base.{
  ℕ, suc, ◌+◌, ◌-◌, Bool, true, false, some, List, [], ◌∷◌, ◌++◌, map, Memᴰ, ◌≡◌, ◌≢◌, refl, ap,
  sym, ◌∙◌, subst, inl, inr, Result, ok, must, filter_by, length, nat_eq, arith, Bool-cases,
}
use nelm.Common.{
  DeployType, initial, install, upgrade, rollback, uninstall, stage_init, stage_install,
  stage_final, stages_sort_handler,
}
use nelm.Common.Order.{init-mem, install-mem, final-mem}
use nelm.Release.{superseded, pending_upgrade, HelmRelease}
use nelm.Plan.Operation.{Operation, id}
use nelm.Plan.Info.{
  InstallableResourceInfo, DeletableResourceInfo, ReleaseType, release_none, release_install,
  release_upgrade, release_rollback, release_supersede, release_uninstall, release_delete,
  ReleaseInfo,
}
use nelm.Plan.ReleaseInfos.{
  supersede_infos, is_deployed, uninstall_infos, new_info, build_release_infos,
}
use nelm.Plan.Graph.{GraphLib, IsGraphLib}
use nelm.Plan.Graph.Paths.{Reaches}
use nelm.Plan.Build.Stages.{StageWeights}
use nelm.Plan.Build.Compose.BuildOrder.{build_graph-stage_order}
use nelm.Plan.Build.Compose.{build_graph}
use nelm.Plan.Build.Compose.Order.{PlacedAs, placed, deploys, releases, upgrading, superseding}
use nelm.Plan.Build.Resources.InstallSteps.{deploy_op}
use mathlib.Core.Bool.{false≢true}
use nelm.Plan.Build.Releases.Placed.{create_release_op, update_release_op, at_status, IsCopy}
use nelm.Plan.Build.Stages.Weighted.{KeepsEntries}

abbrev pub info_for : ReleaseType → Bool → HelmRelease → ReleaseInfo
info_for must fatal rel = record { release = rel; must = must; must_fail_on_failed_deploy = fatal }

-- What becomes of the new release.
abbrev pub new_release_type : DeployType → ReleaseType
new_release_type initial = release_install
new_release_type install = release_install
new_release_type upgrade = release_upgrade
new_release_type rollback = release_rollback
new_release_type uninstall = release_none

supersede-map :
    (rels : List HelmRelease)
    → supersede_infos rels
      ≡ map (info_for release_supersede false) (filter_by (λ r. is_deployed r.status) rels)
unfolding supersede_infos
supersede-map [] = refl
supersede-map (rel ∷ rels) = elim (Bool-cases (is_deployed rel.status)) [
  | inl e ↦ rw (e, supersede-map rels)
  | inr e ↦ rw (e, supersede-map rels)
]

-- Except for an uninstallation, the new release comes first, to be deployed and with its failure
-- fatal, and of the previous releases exactly the deployed ones follow, in their order, each to be
-- superseded.
pub build_release_infos-deploy :
    (t : DeployType) (prev_releases : List HelmRelease) (new_rel : HelmRelease)
    → t ≢ uninstall
    → build_release_infos t prev_releases new_rel
      ≡ info_for (new_release_type t) true new_rel
        ∷ map
            (info_for release_supersede false)
            (filter_by (λ r. is_deployed r.status) prev_releases)
unfolding build_release_infos new_info
build_release_infos-deploy initial prev_releases new_rel n = rw (supersede-map prev_releases)
build_release_infos-deploy install prev_releases new_rel n = rw (supersede-map prev_releases)
build_release_infos-deploy upgrade prev_releases new_rel n = rw (supersede-map prev_releases)
build_release_infos-deploy rollback prev_releases new_rel n = rw (supersede-map prev_releases)
build_release_infos-deploy uninstall prev_releases new_rel n = absurd (n refl)

uninstall-map :
    (rels : List HelmRelease) (last : HelmRelease) (count i : ℕ)
    → count ≡ i + suc (length rels)
    → uninstall_infos count i (rels ++ last ∷ [])
      ≡ map (info_for release_delete false) rels ++ info_for release_uninstall true last ∷ []
unfolding uninstall_infos
uninstall-map [] last count i e =
    let at_end : nat_eq i (count - 1) ≡ true = ground arith in rw at_end
uninstall-map (rel ∷ rels) last count i e =
    let before_end : nat_eq i (count - 1) ≡ false = ground arith in
    rw (before_end, uninstall-map rels last count (suc i) (omega arith))

length-append_one :
    (rels : List HelmRelease) (last : HelmRelease) → length (rels ++ last ∷ []) ≡ suc (length rels)
length-append_one [] last = refl
length-append_one (rel ∷ rels) last = ap suc (length-append_one rels last)

-- An uninstallation uninstalls the last of the previous releases, with a failure fatal, and drops
-- every earlier one; the new release has no part in it.
pub build_release_infos-uninstall :
    (rels : List HelmRelease) (last new_rel : HelmRelease)
    → build_release_infos uninstall (rels ++ last ∷ []) new_rel
      ≡ map (info_for release_delete false) rels ++ info_for release_uninstall true last ∷ []
unfolding build_release_infos
build_release_infos-uninstall rels last new_rel =
    uninstall-map rels last (length (rels ++ last ∷ [])) 0
      (let counted = length-append_one rels last in omega arith)

mem-filter :
    (p : HelmRelease → Bool) (rel : HelmRelease) (rels : List HelmRelease)
    → p rel ≡ true
    → Memᴰ rel rels
    → Memᴰ rel (filter_by p rels)
mem-filter p rel [] h m = m
mem-filter p rel (r ∷ rels) h m = elim (Bool-cases (p r)) [
  | inl e ↦
      rw e
        (⊎_elim Memᴰ.head (λ later. Memᴰ.tail (mem-filter p rel rels h later)) (Memᴰ.cases_cons m))
  | inr e ↦ rw e (
      ⊎_elim (λ same. absurd (false≢true (sym e ∙ sym (ap p same) ∙ h)))
        (λ later. mem-filter p rel rels h later) (Memᴰ.cases_cons m))
]

module _ (lib : GraphLib) (laws : IsGraphLib lib) (copy : HelmRelease → Result HelmRelease)
    (copies : IsCopy copy) (visit : StageWeights → StageWeights) (keeps : KeepsEntries visit)
    (inst_infos : List InstallableResourceInfo) (del_infos : List DeletableResourceInfo)
    (prev_releases : List HelmRelease) (new_rel : HelmRelease) (g : lib.Graph)
    (built : build_graph lib copy visit inst_infos del_infos
        (build_release_infos upgrade prev_releases new_rel)
      ≡ ok g) where
  open lib use {edge}

  infos : List ReleaseInfo
  infos = build_release_infos upgrade prev_releases new_rel

  -- In the graph of an upgrade, built without an error, each resource that is deployed in the stage
  -- install is deployed after the new release was recorded as pending and before each deployed
  -- previous release is marked as superseded.
  pub upgrade-order :
      (info : InstallableResourceInfo) (op : Operation) (rel : HelmRelease)
      → Memᴰ info inst_infos
      → deploy_op info info.must_install ≡ some op
      → info.stage ≡ stage_install
      → Memᴰ rel prev_releases
      → is_deployed rel.status ≡ true
      → Reaches (edge g) (id (create_release_op (at_status new_rel pending_upgrade))) (id op)
        × Reaches (edge g) (id op) (id (update_release_op (at_status rel superseded)))
  unfolding stages_sort_handler infos
  upgrade-order info op rel m e in_install mr d =
      let described = build_release_infos-deploy upgrade prev_releases new_rel (λ h. cc) in
      let first : Memᴰ (info_for release_upgrade true new_rel) infos =
        subst (Memᴰ (info_for release_upgrade true new_rel)) (sym described) (Memᴰ.head refl) in
      let old : Memᴰ (info_for release_supersede false rel) infos =
        subst (Memᴰ (info_for release_supersede false rel)) (sym described) (
          Memᴰ.tail (
            Memᴰ.map (info_for release_supersede false)
              (mem-filter (λ r. is_deployed r.status) rel prev_releases d mr))) in
      let at_install : PlacedAs inst_infos del_infos infos stage_install (id op) =
        subst (λ s. PlacedAs inst_infos del_infos infos s (id op)) in_install
          (deploys info op m e) in
      let order =
        build_graph-stage_order lib laws copy copies visit keeps inst_infos del_infos infos g
          built in
      (
        order stage_init stage_install _ _ init-mem install-mem refl
            (placed (releases (info_for release_upgrade true new_rel) stage_init _ first upgrading))
            at_install,
        order stage_install stage_final _ _ install-mem final-mem refl (placed at_install)
            (releases (info_for release_supersede false rel) stage_final _ old superseding),
      )
