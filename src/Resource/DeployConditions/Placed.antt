-- ===== src/Resource/DeployConditions/Placed.antt =====
-- deployConditions of pkg/resource/metadata.go: the stages in which a resource whose annotations were
-- accepted is deployed.
use nelm.Resource.DeployConditions.Validated.{
  Staged, validate_value-conditions, values_have_conditions,
}
use nelm.Base.{
  arith, ◌&&◌, not, false, List, [], ◌∷◌, Memᴰ, ◌≡◌, refl, ◌==◌, inl, inr, Result, ok,
  if◌then◌else◌, contains-mem, Bool-cases,
}
use nelm.Common.{
  On, on_install, on_upgrade, on_rollback, on_delete, on_test, Stage, stage_pre_pre_install,
  stage_install, stages_ordered, stages_sort_handler,
}
use nelm.Spec.{ResourceMeta}
use nelm.Resource.Metadata.{value_of, is_hook}
use nelm.Resource.DeployConditions.{
  deploy_on_values, hook_values, validate_deploy_on, validate_hook, is_on, insert_stage, stages_on,
  is_early, early_on, annotated_conditions, default_conditions, or_else, hook_conditions,
  deploy_conditions,
}

-- Each stage is one of stages_ordered, and that of a definition of resources or a namespace is
-- stage_pre_pre_install.
abbrev pub AllowedStage : ResourceMeta → Stage → Type 0
AllowedStage meta stage =
    Memᴰ stage stages_ordered × ((is_early meta && not (stage == stage_pre_pre_install)) ≡ false)

abbrev pub AllowedStages : ResourceMeta → List Stage → Type 0
AllowedStages meta [] = Unit
AllowedStages meta (stage ∷ stages) = AllowedStage meta stage × AllowedStages meta stages

insert_stage-AllowedStages :
    (meta : ResourceMeta) (s : Stage) (stages : List Stage)
    → AllowedStage meta s
    → AllowedStages meta stages
    → AllowedStages meta (insert_stage s stages)
unfolding insert_stage
insert_stage-AllowedStages meta s [] a all = (a, tt)
insert_stage-AllowedStages meta s (t ∷ stages) a all = elim (Bool-cases (stages_sort_handler t s)) [
  | inl e ↦ rw e (all.0, insert_stage-AllowedStages meta s stages a all.1)
  | inr e ↦ rw e (a, all)
]

stages_on-AllowedStages :
    (meta : ResourceMeta) (on : On) (conditions : List (On × Stage))
    → is_early meta ≡ false
    → Staged conditions
    → AllowedStages meta (stages_on on conditions)
unfolding stages_on
stages_on-AllowedStages meta on [] late staged = tt
stages_on-AllowedStages meta on ((on', stage) ∷ conditions) late staged =
    let rest = stages_on-AllowedStages meta on conditions late staged.1 in
    elim (Bool-cases (is_on on on')) [
      | inl e ↦ rw e (insert_stage-AllowedStages meta stage _ (staged.0, rw late refl) rest)
      | inr e ↦ rw e rest
    ]

early-AllowedStage : (meta : ResourceMeta) → AllowedStage meta stage_pre_pre_install
early-AllowedStage meta = (contains-mem stages_ordered stage_pre_pre_install refl, ground arith)

early_on-AllowedStages :
    (meta : ResourceMeta) (on : On) (conditions : List (On × Stage))
    → AllowedStages meta (early_on on conditions)
unfolding early_on
early_on-AllowedStages meta on [] = tt
early_on-AllowedStages meta on ((on', stage) ∷ conditions) = elim (Bool-cases (is_on on on')) [
  | inl e ↦ rw e (early-AllowedStage meta, tt)
  | inr e ↦ rw e (early_on-AllowedStages meta on conditions)
]

annotated_conditions-AllowedStages :
    (meta : ResourceMeta) (on : On) (conditions : List (On × Stage))
    → Staged conditions
    → AllowedStages meta (annotated_conditions meta conditions on)
unfolding annotated_conditions
annotated_conditions-AllowedStages meta on conditions staged = elim (Bool-cases (is_early meta)) [
  | inl e ↦ rw e (early_on-AllowedStages meta on conditions)
  | inr e ↦ rw e (stages_on-AllowedStages meta on conditions e staged)
]

default_conditions-AllowedStages :
    (meta : ResourceMeta) (on : On) (stage : Stage)
    → AllowedStage meta stage
    → AllowedStages meta (default_conditions stage on)
unfolding default_conditions
default_conditions-AllowedStages meta on_install stage a = (a, tt)
default_conditions-AllowedStages meta on_upgrade stage a = (a, tt)
default_conditions-AllowedStages meta on_rollback stage a = (a, tt)
default_conditions-AllowedStages meta on_delete stage a = tt
default_conditions-AllowedStages meta on_test stage a = tt

-- The conditions have a result, and its stages are allowed.
abbrev pub Allows : ResourceMeta → On → Result (On → List Stage) → Type 0
Allows meta on result =
    (conditions : On → List Stage) × (result ≡ ok conditions) × AllowedStages meta (conditions on)

or_else-Allows :
    (meta : ResourceMeta) (on : On) (conditions : List (On × Stage))
    (others : Result (On → List Stage))
    → Staged conditions
    → Allows meta on others
    → Allows meta on (or_else meta conditions others)
unfolding or_else
or_else-Allows meta on [] others staged allowed = allowed
or_else-Allows meta on (condition ∷ conditions) others staged allowed = (
  annotated_conditions meta (condition ∷ conditions),
  refl,
  annotated_conditions-AllowedStages meta on (condition ∷ conditions) staged,
)

default-Allows :
    (meta : ResourceMeta) (on : On)
    → Allows meta on
        (ok (default_conditions (if is_early meta then stage_pre_pre_install else stage_install)))
default-Allows meta on = (_, refl, default_conditions-AllowedStages meta on _ allowed)
  where
    allowed : AllowedStage meta (if is_early meta then stage_pre_pre_install else stage_install)
    allowed = elim (Bool-cases (is_early meta)) [
      | inl e ↦ rw e ((early-AllowedStage meta).0, refl)
      | inr e ↦ rw e (contains-mem stages_ordered stage_install refl, refl)
    ]

hook_conditions-Staged :
    (meta : ResourceMeta)
    → validate_hook meta ≡ ok tt
    → (conditions : List (On × Stage)) × (hook_conditions meta ≡ ok conditions) × Staged conditions
unfolding hook_conditions validate_hook
hook_conditions-Staged meta valid = elim (Bool-cases (is_hook meta.annotations)) [
  | inl e ↦ rw e (
      validate_value-conditions hook_values (value_of meta.annotations "helm.sh/hook")
        values_have_conditions.1 valid)
  | inr e ↦ ([], rw e refl, tt)
]

-- For annotations that validateHook and validateDeployOn accept, deployConditions does not panic, and
-- every stage that it gives for a command is one of stages_ordered, and stage_pre_pre_install for a
-- definition of resources or a namespace.
pub deploy_conditions-Allows :
    (meta : ResourceMeta) (on : On)
    → validate_hook meta ≡ ok tt
    → validate_deploy_on meta ≡ ok tt
    → Allows meta on (deploy_conditions meta)
unfolding deploy_conditions validate_deploy_on
deploy_conditions-Allows meta on valid_hook valid_deploy_on =
    let (conditions, found, staged) =
      validate_value-conditions deploy_on_values (value_of meta.annotations "werf.io/deploy-on")
        values_have_conditions.0 valid_deploy_on in
    let (hooks, found_hooks, staged_hooks) = hook_conditions-Staged meta valid_hook in
    rw (found, found_hooks)
      (or_else-Allows meta on conditions _ staged
        (or_else-Allows meta on hooks _ staged_hooks (default-Allows meta on)))
