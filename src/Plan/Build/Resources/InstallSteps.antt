-- ===== src/Plan/Build/Resources/InstallSteps.antt =====
-- The chain of one resource (addInstallResourceOps in pkg/plan/plan_build.go) as an explicit list.
use mathlib.Core.List.Memᴰ
use nelm.Base.{
  true, false, Option, none, some, List, [], ◌∷◌, ◌++◌, map, Memᴰ, ◌≡◌, refl, not, inl, inr, ok,
  if◌then◌else◌, Bool-cases,
}
use nelm.Common.{Stage}
use nelm.Resource.{ExternalDependency}
use nelm.Plan.Operation.{
  category_resource, category_track, type_apply, type_create, type_delete, type_recreate,
  type_track_absence, type_track_presence, type_update, create, recreate, update, apply, delete,
  track_presence, track_absence, Operation,
}
use nelm.Plan.Info.{
  ResourceInstallType, install_none, install_create, install_recreate, install_update,
  install_apply, InstallableResourceInfo,
}
use nelm.Plan.Chain.{BuilderStep, ChainBuilder}
use nelm.Plan.Build.{new_operation}
use nelm.Plan.Build.Resources.{
  install_stage, add_external_dependencies, add_deploy_op, track_readiness_op, is_install_none,
  add_track_op, add_cleanup_ops, install_chain,
}
use nelm.Plan.Chain.Builder.{
  staged_step, skipping_step, in_stage-add_operation, skip_on_duplicate-append,
}
use mathlib.Core.List.{append-nil, append_assoc}

-- The operation that deploys the resource, if there is one.
abbrev pub deploy_op : InstallableResourceInfo → ResourceInstallType → Option Operation
deploy_op info install_create = some (
    new_operation type_create category_resource info.iteration
      (create info.local_resource.spec info.local_resource.default_replicas_on_creation))
deploy_op info install_recreate = some (
    new_operation type_recreate category_resource info.iteration (
      recreate info.local_resource.spec info.local_resource.delete_propagation
        info.local_resource.default_replicas_on_creation))
deploy_op info install_update =
    some
      (new_operation type_update category_resource info.iteration (update info.local_resource.spec))
deploy_op info install_apply =
    some
      (new_operation type_apply category_resource info.iteration (apply info.local_resource.spec))
deploy_op info install_none = none

abbrev pub presence_op : ExternalDependency → Operation
presence_op dep = new_operation type_track_presence category_track 0 (track_presence dep.meta)

abbrev pub cleanup_op : InstallableResourceInfo → Operation
cleanup_op info =
    new_operation type_delete category_resource info.iteration
      (delete info.meta info.local_resource.delete_propagation)

abbrev pub cleanup_track_op : InstallableResourceInfo → Operation
cleanup_track_op info =
    new_operation type_track_absence category_track info.iteration (track_absence info.meta)

abbrev pub stage_of : InstallableResourceInfo → Stage
stage_of info = install_stage info.stage info.local_resource.weight

abbrev pub presence_steps : InstallableResourceInfo → List BuilderStep
presence_steps info =
    if not (is_install_none info.must_install)
    then map (λ d. skipping_step (presence_op d) (stage_of info))
        info.local_resource.external_dependencies
    else []

abbrev pub deploy_steps : InstallableResourceInfo → ResourceInstallType → List BuilderStep
deploy_steps info t = elim (deploy_op info t) [
  | none ↦ []
  | some op ↦ staged_step op (stage_of info) ∷ []
]

abbrev pub track_steps : InstallableResourceInfo → List BuilderStep
track_steps info =
    if info.must_track_readiness
    then staged_step (track_readiness_op info) (stage_of info) ∷ []
    else []

abbrev pub cleanup_steps : InstallableResourceInfo → List BuilderStep
cleanup_steps info =
    if info.must_delete_on_successful_install
    then staged_step (cleanup_op info) info.stage_delete_on_successful_install
      ∷ staged_step (cleanup_track_op info) info.stage_delete_on_successful_install
      ∷ []
    else []

-- Presence of the external dependencies first, then the deployment, its readiness, the deletion of
-- the resource and its absence.
unfoldable pub install_steps : InstallableResourceInfo → List BuilderStep
install_steps info =
    presence_steps info
    ++ (deploy_steps info info.must_install ++ (track_steps info ++ cleanup_steps info))

presence-eq :
    (chain : ChainBuilder) (stage : Stage) (deps : List ExternalDependency)
    → add_external_dependencies chain stage deps
      ≡ ok (chain ++ map (λ d. skipping_step (presence_op d) stage) deps)
unfolding add_external_dependencies
presence-eq chain stage [] = rw append-nil
presence-eq chain stage (dep ∷ deps) = rw (in_stage-add_operation chain (presence_op dep) stage) (
    rw (skip_on_duplicate-append chain (presence_op dep) stage) (
      rw (presence-eq (chain ++ skipping_step (presence_op dep) stage ∷ []) stage deps)
        (simp append_assoc)))

deploy-eq :
    (chain : ChainBuilder) (info : InstallableResourceInfo) (t : ResourceInstallType)
    → add_deploy_op chain info (stage_of info) t ≡ ok (chain ++ deploy_steps info t)
unfolding add_deploy_op
deploy-eq chain info install_none = rw append-nil
deploy-eq chain info install_create = in_stage-add_operation chain _ _
deploy-eq chain info install_recreate = in_stage-add_operation chain _ _
deploy-eq chain info install_update = in_stage-add_operation chain _ _
deploy-eq chain info install_apply = in_stage-add_operation chain _ _

track-eq :
    (chain : ChainBuilder) (info : InstallableResourceInfo)
    → add_track_op chain info (stage_of info) ≡ ok (chain ++ track_steps info)
unfolding add_track_op
track-eq chain info = elim (Bool-cases info.must_track_readiness) [
  | inl e ↦ rw e (in_stage-add_operation chain _ _)
  | inr e ↦ rw e (rw append-nil)
]

cleanup-eq :
    (chain : ChainBuilder) (info : InstallableResourceInfo)
    → add_cleanup_ops chain info ≡ ok (chain ++ cleanup_steps info)
unfolding add_cleanup_ops
cleanup-eq chain info = elim (Bool-cases info.must_delete_on_successful_install) [
  | inl e ↦ rw e (
      rw (in_stage-add_operation chain (cleanup_op info) info.stage_delete_on_successful_install)
        (rw in_stage-add_operation (simp append_assoc)))
  | inr e ↦ rw e (rw append-nil)
]

-- The builder calls never panic, and make exactly these steps.
pub install_chain-eq :
    (info : InstallableResourceInfo) → install_chain info ≡ ok (install_steps info)
unfolding install_chain install_steps
install_chain-eq info = elim (Bool-cases (not (is_install_none info.must_install))) [
  | inl e ↦ rw e (
      rw (presence-eq [] (stage_of info) info.local_resource.external_dependencies) (
        rw (deploy-eq _ info info.must_install)
          (rw (track-eq _ info) (rw (cleanup-eq _ info) (simp append_assoc)))))
  | inr e ↦ rw e (
      rw (deploy-eq [] info info.must_install)
        (rw (track-eq _ info) (rw (cleanup-eq _ info) (simp append_assoc))))
]

-- The single steps of the chain.
pub deploy_mem :
    (info : InstallableResourceInfo) (op : Operation)
    → deploy_op info info.must_install ≡ some op
    → Memᴰ (staged_step op (stage_of info)) (deploy_steps info info.must_install)
deploy_mem info op e = rw (deploy_steps, e) (Memᴰ.head refl)

pub track_mem :
    (info : InstallableResourceInfo)
    → info.must_track_readiness ≡ true
    → Memᴰ (staged_step (track_readiness_op info) (stage_of info)) (track_steps info)
track_mem info e = rw e (Memᴰ.head refl)

pub cleanup_mem :
    (info : InstallableResourceInfo)
    → info.must_delete_on_successful_install ≡ true
    → Memᴰ
        (staged_step (cleanup_op info) info.stage_delete_on_successful_install)
        (cleanup_steps info)
cleanup_mem info e = rw e (Memᴰ.head refl)

pub cleanup_track_mem :
    (info : InstallableResourceInfo)
    → info.must_delete_on_successful_install ≡ true
    → Memᴰ
        (staged_step (cleanup_track_op info) info.stage_delete_on_successful_install)
        (cleanup_steps info)
cleanup_track_mem info e = rw e (Memᴰ.tail (Memᴰ.head refl))

deploys-not-none :
    (info : InstallableResourceInfo) (t : ResourceInstallType) {op : Operation}
    → deploy_op info t ≡ some op
    → is_install_none t ≡ false
unfolding is_install_none
deploys-not-none info install_none h = cc
deploys-not-none info install_create h = refl
deploys-not-none info install_recreate h = refl
deploys-not-none info install_update h = refl
deploys-not-none info install_apply h = refl

pub presence_mem :
    (info : InstallableResourceInfo) (dep : ExternalDependency) (op : Operation)
    → Memᴰ dep info.local_resource.external_dependencies
    → deploy_op info info.must_install ≡ some op
    → Memᴰ (skipping_step (presence_op dep) (stage_of info)) (presence_steps info)
presence_mem info dep op m e =
    rw (presence_steps, deploys-not-none info info.must_install e)
      (Memᴰ.map (λ d. skipping_step (presence_op d) (stage_of info)) m)
