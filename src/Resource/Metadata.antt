-- ===== src/Resource/Metadata.antt =====
-- pkg/resource/metadata.go: what the annotations of a resource say about its policies, its deletion
-- and the stages in which it is deployed (with FindAnnotationOrLabelByKeyPattern and IsHook of
-- pkg/resource/spec). The order of a StringMap stands for the order of the range over the map.
use nelm.Base.{
  String, Bool, true, false, Option, none, some, List, [], ◌∷◌, ◌++◌, map, ◌==◌, ◌&&◌, ◌||◌, not,
  Result, ok, err, message, if◌then◌else◌, contains, trim_space, split_commas, matches_pattern,
}
use nelm.Common.{
  StoreAs, store_as_none, store_as_hook, store_as_regular, ResourcePolicy, Ownership, DeletePolicy,
  delete_policy_succeeded, delete_policy_failed, delete_policy_before_creation,
  delete_policy_before_creation_if_immutable, policy_skip_create, policy_skip_update,
  policy_skip_recreate, policy_skip_delete, policy_keep, ownership_anyone, ownership_release,
}
use nelm.Spec.{GroupVersionKind, StringMap, ResourceMeta, is_release_namespace}

-- The key with its trimmed value.
unfoldable pub find_by_key_pattern : StringMap → String → Option (String × String)
find_by_key_pattern [] pattern = none
find_by_key_pattern ((key, value) ∷ entries) pattern =
    if matches_pattern pattern key
    then some (key, trim_space value)
    else find_by_key_pattern entries pattern

unfoldable pub value_of : StringMap → String → Option String
unfolding find_by_key_pattern
value_of entries pattern = elim (find_by_key_pattern entries pattern) [
  | none ↦ none
  | some found ↦ some found.1
]

unfoldable pub is_hook : StringMap → Bool
unfolding value_of
is_hook annotations = elim (value_of annotations "helm.sh/hook") [ none ↦ false | some _ ↦ true ]

-- One policy of parseResourcePolicies: an empty one is left out, and keep is skip-delete.
with_policy : String → List ResourcePolicy → List ResourcePolicy
with_policy p policies =
    if p == ""
    then policies
    else if p == policy_keep
    then policy_skip_delete ∷ policies
    else p ∷ policies

policies_of : List String → List ResourcePolicy
unfolding with_policy
policies_of [] = []
policies_of (p ∷ parts) = with_policy (trim_space p) (policies_of parts)

unfoldable pub parse_resource_policies : String → List ResourcePolicy
unfolding policies_of split_commas
parse_resource_policies value = policies_of (split_commas value)

-- The annotation of werf, or else that of Helm.
unfoldable pub annotated_policies : ResourceMeta → List ResourcePolicy
unfolding parse_resource_policies value_of
annotated_policies meta = elim (value_of meta.annotations "werf.io/resource-policy") [
  | some value ↦ parse_resource_policies value
  | none ↦ elim (value_of meta.annotations "helm.sh/resource-policy") [
    | some value ↦ parse_resource_policies value
    | none ↦ []
  ]
]

unfoldable pub resource_policies_of : ResourceMeta → String → List ResourcePolicy
unfolding annotated_policies
resource_policies_of meta release_namespace =
    if is_release_namespace meta.name meta.gvk release_namespace
      && not (contains (annotated_policies meta) policy_skip_delete)
    then annotated_policies meta ++ policy_skip_delete ∷ []
    else annotated_policies meta

is_known_policy : String → Bool
is_known_policy p =
    p == policy_skip_create
    || p == policy_skip_update
    || p == policy_skip_recreate
    || p == policy_skip_delete
    || p == policy_keep

-- The loop over the comma-separated values.
validate_policies : List String → Result (Unit {0})
unfolding is_known_policy
validate_policies [] = ok tt
validate_policies (p ∷ parts) =
    let rest = validate_policies parts in
    if trim_space p == ""
    then err (message "invalid value for annotation, one of the comma-separated values is empty")
    else if is_known_policy (trim_space p)
    then rest
    else err (message "invalid unknown value for annotation")

validate_werf_policy : String → Result (Unit {0})
unfolding validate_policies
validate_werf_policy value =
    if value == ""
    then err (message "invalid value for annotation, expected non-empty string value")
    else validate_policies (split_commas value)

validate_helm_policy : String → Result (Unit {0})
validate_helm_policy value =
    if value == ""
    then err (message "invalid value for annotation, expected non-empty string value")
    else if value == policy_keep
    then ok tt
    else err (message "invalid unknown value for annotation")

unfoldable pub validate_resource_policy : ResourceMeta → Result (Unit {0})
unfolding validate_werf_policy validate_helm_policy value_of
validate_resource_policy meta = elim (value_of meta.annotations "werf.io/resource-policy") [
  | some value ↦ validate_werf_policy value
  | none ↦ elim (value_of meta.annotations "helm.sh/resource-policy") [
    | some value ↦ validate_helm_policy value
    | none ↦ ok tt
  ]
]

-- One value of the annotation of Helm; another one is left out.
with_hook_policy : String → List DeletePolicy → List DeletePolicy
with_hook_policy p policies =
    if p == "hook-succeeded"
    then delete_policy_succeeded ∷ policies
    else if p == "hook-failed"
    then delete_policy_failed ∷ policies
    else if p == "before-hook-creation"
    then delete_policy_before_creation ∷ policies
    else policies

hook_policies : List String → List DeletePolicy
unfolding with_hook_policy
hook_policies [] = []
hook_policies (p ∷ parts) = with_hook_policy (trim_space p) (hook_policies parts)

hook_delete_policies : Option String → Option String → List DeletePolicy
unfolding hook_policies
hook_delete_policies none none = delete_policy_before_creation ∷ []
hook_delete_policies hook (some general) = map trim_space (split_commas general)
hook_delete_policies (some hook) none = hook_policies (split_commas hook)

general_delete_policies : GroupVersionKind → Option String → List DeletePolicy
general_delete_policies gvk (some general) = map trim_space (split_commas general)
general_delete_policies gvk none =
    if gvk.kind == "Job" && gvk.group == "batch"
    then delete_policy_before_creation_if_immutable ∷ []
    else []

unfoldable pub delete_policies : ResourceMeta → List DeletePolicy
unfolding hook_delete_policies general_delete_policies is_hook value_of
delete_policies meta =
    if is_hook meta.annotations
    then hook_delete_policies (value_of meta.annotations "helm.sh/hook-delete-policy")
        (value_of meta.annotations "werf.io/delete-policy")
    else general_delete_policies meta.gvk (value_of meta.annotations "werf.io/delete-policy")

unfoldable pub deletes_on_failed : ResourceMeta → Bool
deletes_on_failed meta = contains (delete_policies meta) delete_policy_failed

unfoldable pub deletes_on_succeeded : ResourceMeta → Bool
deletes_on_succeeded meta = contains (delete_policies meta) delete_policy_succeeded

unfoldable pub recreates : ResourceMeta → Bool
recreates meta = contains (delete_policies meta) delete_policy_before_creation

unfoldable pub recreate_on_immutable : ResourceMeta → Bool
recreate_on_immutable meta =
    contains (delete_policies meta) delete_policy_before_creation_if_immutable

-- DefaultDeletePropagation is the last default.
unfoldable pub delete_propagation_of : ResourceMeta → String → String
unfolding value_of
delete_propagation_of meta default = elim (value_of meta.annotations "werf.io/delete-propagation") [
  | some value ↦ value
  | none ↦ if default == "" then "Foreground" else default
]

ownership_by_store : StoreAs → Ownership
ownership_by_store store_as_hook = ownership_anyone
ownership_by_store store_as_regular = ownership_release
ownership_by_store store_as_none = ownership_anyone

is_store_none : StoreAs → Bool
is_store_none store_as_none = true
is_store_none _ = false

-- The last case of the switch is excluded by the first test.
unfoldable pub ownership_of : ResourceMeta → String → StoreAs → Ownership
unfolding ownership_by_store is_store_none is_hook value_of
ownership_of meta release_namespace store_as =
    if is_release_namespace meta.name meta.gvk release_namespace || is_store_none store_as
    then ownership_anyone
    else elim (value_of meta.annotations "werf.io/ownership") [
      | some value ↦ value
      | none ↦ if is_hook meta.annotations then ownership_anyone else ownership_by_store store_as
    ]
