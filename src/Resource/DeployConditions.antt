-- ===== src/Resource/DeployConditions.antt =====
-- pkg/resource/metadata.go: on which commands and in which stages a resource is deployed
-- (deployConditions, deployConditionsForAnnotation), and the validation of the annotations that say so
-- (validateHook, validateDeployOn). A map from commands to lists of stages is first the list of its
-- appended entries: its keys are the commands of that list.
pub mod Placed
pub mod Validated
use nelm.Base.{
  String, Bool, true, false, Option, none, some, List, [], ◌∷◌, ◌==◌, ◌||◌, not, Result, ok, err,
  panic, message, ◌>>=◌, if◌then◌else◌, contains, trim_space, split_commas,
}
use nelm.Common.{
  On, on_install, on_upgrade, on_rollback, on_delete, on_test, Stage, stage_pre_pre_install,
  stage_pre_install, stage_install, stage_post_install, stages_sort_handler,
}
use nelm.Spec.{ResourceMeta, is_crd, is_namespace}
use nelm.Resource.Metadata.{value_of, is_hook}

-- The cases of the switch in validateDeployOn, and in validateHook.
abbrev pub deploy_on_values : List String
deploy_on_values =
    "pre-install" ∷ "post-install" ∷ "pre-upgrade" ∷ "post-upgrade" ∷ "pre-rollback"
    ∷ "post-rollback" ∷ "pre-delete" ∷ "post-delete" ∷ "test" ∷ "install" ∷ "upgrade" ∷ "rollback"
    ∷ "delete" ∷ "test-success" ∷ []

abbrev pub hook_values : List String
hook_values =
    "pre-install" ∷ "post-install" ∷ "pre-upgrade" ∷ "post-upgrade" ∷ "pre-rollback"
    ∷ "post-rollback" ∷ "pre-delete" ∷ "post-delete" ∷ "test" ∷ "test-success" ∷ []

-- The loop over the comma-separated values.
validate_parts : List String → List String → Result (Unit {0})
validate_parts values [] = ok tt
validate_parts values (part ∷ parts) =
    let rest = validate_parts values parts in
    if trim_space part == ""
    then err (message "invalid value for annotation, one of the comma-separated values is empty")
    else if contains values (trim_space part)
    then rest
    else err (message "value for annotation is not supported")

pub validate_value : List String → Option String → Result (Unit {0})
unfolding validate_parts
validate_value values none = ok tt
validate_value values (some value) =
    if value == ""
    then err (message "invalid value for annotation, expected non-empty string value")
    else validate_parts values (split_commas value)

unfoldable pub validate_deploy_on : ResourceMeta → Result (Unit {0})
unfolding validate_value
validate_deploy_on meta =
    validate_value deploy_on_values (value_of meta.annotations "werf.io/deploy-on")

unfoldable pub validate_hook : ResourceMeta → Result (Unit {0})
unfolding validate_value
validate_hook meta = validate_value hook_values (value_of meta.annotations "helm.sh/hook")

-- The cases of the switch in deployConditionsForAnnotation.
abbrev condition_cases : List (String × On × Stage)
condition_cases =
    ("pre-install", on_install, stage_pre_install)
    ∷ ("post-install", on_install, stage_post_install)
    ∷ ("pre-upgrade", on_upgrade, stage_pre_install)
    ∷ ("post-upgrade", on_upgrade, stage_post_install)
    ∷ ("pre-rollback", on_rollback, stage_pre_install)
    ∷ ("post-rollback", on_rollback, stage_post_install)
    ∷ ("pre-delete", on_delete, stage_pre_install)
    ∷ ("post-delete", on_delete, stage_post_install)
    ∷ ("test", on_test, stage_install)
    ∷ ("test-success", on_test, stage_install)
    ∷ ("install", on_install, stage_install)
    ∷ ("upgrade", on_upgrade, stage_install)
    ∷ ("rollback", on_rollback, stage_install)
    ∷ ("delete", on_delete, stage_install)
    ∷ []

condition_of : List (String × On × Stage) → String → Result (On × Stage)
condition_of [] value = panic
condition_of ((name, on, stage) ∷ cases) value =
    let rest = condition_of cases value in if name == value then ok (on, stage) else rest

conditions_of : List String → Result (List (On × Stage))
unfolding condition_of
conditions_of [] = ok []
conditions_of (part ∷ parts) = do
  condition ← condition_of condition_cases (trim_space part)
  conditions ← conditions_of parts
  ok (condition ∷ conditions)

-- The entries that are appended to the map, before the stages of each command are sorted.
pub conditions_for : Option String → Result (List (On × Stage))
unfolding conditions_of
conditions_for none = ok []
conditions_for (some value) = conditions_of (split_commas value)

is_on : On → On → Bool
is_on on_install on_install = true
is_on on_upgrade on_upgrade = true
is_on on_rollback on_rollback = true
is_on on_delete on_delete = true
is_on on_test on_test = true
is_on _ _ = false

-- sort.SliceStable by StagesSortHandler
insert_stage : Stage → List Stage → List Stage
insert_stage s [] = s ∷ []
insert_stage s (t ∷ stages) =
    let rest = insert_stage s stages in if stages_sort_handler t s then t ∷ rest else s ∷ t ∷ stages

stages_on : On → List (On × Stage) → List Stage
unfolding insert_stage is_on
stages_on on [] = []
stages_on on ((on', stage) ∷ conditions) =
    let rest = stages_on on conditions in if is_on on on' then insert_stage stage rest else rest

pub is_early : ResourceMeta → Bool
is_early meta = is_crd meta.gvk || is_namespace meta.gvk

-- Definitions of resources and namespaces go first, on every command of the map.
early_on : On → List (On × Stage) → List Stage
unfolding is_on
early_on on [] = []
early_on on ((on', stage) ∷ conditions) =
    let rest = early_on on conditions in if is_on on on' then stage_pre_pre_install ∷ [] else rest

annotated_conditions : ResourceMeta → List (On × Stage) → On → List Stage
unfolding early_on stages_on is_early
annotated_conditions meta conditions on =
    if is_early meta then early_on on conditions else stages_on on conditions

default_conditions : Stage → On → List Stage
default_conditions stage on_install = stage ∷ []
default_conditions stage on_upgrade = stage ∷ []
default_conditions stage on_rollback = stage ∷ []
default_conditions stage _ = []

-- The conditions of an annotation, where there are some, or else the next ones.
or_else : ResourceMeta → List (On × Stage) → Result (On → List Stage) → Result (On → List Stage)
unfolding annotated_conditions
or_else meta [] next = next
or_else meta (condition ∷ conditions) next = ok (annotated_conditions meta (condition ∷ conditions))

hook_conditions : ResourceMeta → Result (List (On × Stage))
unfolding conditions_for
hook_conditions meta =
    if is_hook meta.annotations
    then conditions_for (value_of meta.annotations "helm.sh/hook")
    else ok []

unfoldable pub deploy_conditions : ResourceMeta → Result (On → List Stage)
unfolding conditions_for hook_conditions or_else default_conditions is_early
deploy_conditions meta = do
  conditions ← conditions_for (value_of meta.annotations "werf.io/deploy-on")
  or_else meta conditions (do
    hooks ← hook_conditions meta
    or_else meta hooks
        (ok (default_conditions (if is_early meta then stage_pre_pre_install else stage_install))))
