-- ===== src/Resource/DeployConditions/Validated.antt =====
-- deployConditions of pkg/resource/metadata.go on annotations that validateHook and validateDeployOn
-- accept.
use mathlib.Core.List.Memᴰ
use nelm.Base.{
  String, Bool, true, false, Option, none, some, List, [], ◌∷◌, Memᴰ, ◌≡◌, refl, ◌==◌, inl, inr,
  Result, ok, err, panic, if◌then◌else◌, contains, contains-mem, trim_space, split_commas,
  Bool-cases,
}
use nelm.Common.{On, Stage, stages_ordered}
use nelm.Resource.DeployConditions.{
  deploy_on_values, hook_values, validate_parts, validate_value, condition_cases, condition_of,
  conditions_of, conditions_for,
}

-- A condition that the switch gives, with a stage of the list of stages.
has_condition : String → Bool
unfolding condition_of
has_condition value = elim (condition_of condition_cases value) [
  | ok condition ↦ contains stages_ordered condition.1
  | err _ ↦ false
  | panic ↦ false
]

pub all_have_conditions : List String → Bool
unfolding has_condition
all_have_conditions [] = true
all_have_conditions (value ∷ values) =
    let rest = all_have_conditions values in if has_condition value then rest else false

all_have_conditions-mem :
    (values : List String) (value : String)
    → all_have_conditions values ≡ true
    → Memᴰ value values
    → has_condition value ≡ true
unfolding all_have_conditions
all_have_conditions-mem [] value h m = absurd (Memᴰ.not-nil m)
all_have_conditions-mem (v ∷ values) value h m = elim (Bool-cases (has_condition v)) [
  | inr e ↦ absurd (cc (rw e at h))
  | inl e ↦ elim (Memᴰ.cases_cons m) [
    | inl same ↦ rw same e
    | inr later ↦ all_have_conditions-mem values value (rw e at h) later
  ]
]

abbrev pub Staged : List (On × Stage) → Type 0
Staged [] = Unit
Staged (condition ∷ conditions) = Memᴰ condition.1 stages_ordered × Staged conditions

has_condition-ok :
    (value : String)
    → has_condition value ≡ true
    → (condition : On × Stage) × (condition_of condition_cases value ≡ ok condition)
      × Memᴰ condition.1 stages_ordered
unfolding has_condition
has_condition-ok value h = go (condition_of condition_cases value) refl h
  where
    go :
        (r : Result (On × Stage))
        → condition_of condition_cases value ≡ r
        → (elim r [
          | ok condition ↦ contains stages_ordered condition.1
          | err _ ↦ false
          | panic ↦ false
        ])
          ≡ true
        → (condition : On × Stage) × (condition_of condition_cases value ≡ ok condition)
          × Memᴰ condition.1 stages_ordered
    go (ok condition) e h = (condition, e, contains-mem stages_ordered condition.1 h)
    go (err _) e h = cc
    go panic e h = cc

validate_parts-conditions :
    (values parts : List String)
    → all_have_conditions values ≡ true
    → validate_parts values parts ≡ ok tt
    → (conditions : List (On × Stage)) × (conditions_of parts ≡ ok conditions) × Staged conditions
unfolding validate_parts conditions_of
validate_parts-conditions values [] all h = ([], refl, tt)
validate_parts-conditions values (part ∷ parts) all h = elim (Bool-cases (trim_space part == "")) [
  | inl e ↦ absurd (cc (rw e at h))
  | inr e ↦ elim (Bool-cases (contains values (trim_space part))) [
    | inr f ↦ absurd (cc (rw (e, f) at h))
    | inl f ↦
        let (condition, found, staged) = has_condition-ok (trim_space part) (
          all_have_conditions-mem values (trim_space part) all
            (contains-mem values (trim_space part) f)) in
        let (conditions, rest, all_staged) =
          validate_parts-conditions values parts all (rw (e, f) at h) in
        (condition ∷ conditions, rw (found, rest) refl, (staged, all_staged))
  ]
]

pub validate_value-conditions :
    (values : List String) (value : Option String)
    → all_have_conditions values ≡ true
    → validate_value values value ≡ ok tt
    → (conditions : List (On × Stage)) × (conditions_for value ≡ ok conditions) × Staged conditions
unfolding validate_value conditions_for
validate_value-conditions values none all h = ([], refl, tt)
validate_value-conditions values (some value) all h = elim (Bool-cases (value == "")) [
  | inl e ↦ absurd (cc (rw e at h))
  | inr e ↦ validate_parts-conditions values (split_commas value) all (rw e at h)
]

pub values_have_conditions :
    (all_have_conditions deploy_on_values ≡ true) × (all_have_conditions hook_values ≡ true)
unfolding all_have_conditions has_condition condition_of
values_have_conditions = (refl, refl)
