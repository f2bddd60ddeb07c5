-- ===== src/Common.antt =====
-- pkg/common/common.go: the vocabulary of deployments. A Go string type whose values the code takes
-- from user text (a stage with a weight, a resource policy, an ownership, a delete policy) is a
-- `String`; one whose values are only the listed constants is an enumeration.
pub mod Order
use nelm.Base.{
  String, append_text, ℤ, decimal_int, Bool, true, false, Option, none, some, List, [], ◌∷◌, ℕ, suc,
  ◌==◌, if◌then◌else◌, ltb,
}

pub data DeployType : Type 0 where
  initial install upgrade rollback uninstall : DeployType

pub data On : Type 0 where
  on_install on_upgrade on_rollback on_delete on_test : On

pub data ResourceState : Type 0 where
  absent present ready : ResourceState

pub data StoreAs : Type 0 where
  store_as_none store_as_hook store_as_regular : StoreAs

abbrev pub Stage : Type 0
Stage = String

abbrev pub ResourcePolicy : Type 0
ResourcePolicy = String

abbrev pub Ownership : Type 0
Ownership = String

abbrev pub DeletePolicy : Type 0
DeletePolicy = String

abbrev pub policy_skip_create : ResourcePolicy
policy_skip_create = "skip-create"

abbrev pub policy_skip_update : ResourcePolicy
policy_skip_update = "skip-update"

abbrev pub policy_skip_recreate : ResourcePolicy
policy_skip_recreate = "skip-recreate"

abbrev pub policy_skip_delete : ResourcePolicy
policy_skip_delete = "skip-delete"

abbrev pub policy_keep : ResourcePolicy
policy_keep = "keep"

abbrev pub ownership_anyone : Ownership
ownership_anyone = "anyone"

abbrev pub ownership_release : Ownership
ownership_release = "release"

abbrev pub delete_policy_succeeded : DeletePolicy
delete_policy_succeeded = "succeeded"

abbrev pub delete_policy_failed : DeletePolicy
delete_policy_failed = "failed"

abbrev pub delete_policy_before_creation : DeletePolicy
delete_policy_before_creation = "before-creation"

abbrev pub delete_policy_before_creation_if_immutable : DeletePolicy
delete_policy_before_creation_if_immutable = "before-creation-if-immutable"

abbrev pub stage_init : Stage
stage_init = "init"

abbrev pub stage_pre_pre_uninstall : Stage
stage_pre_pre_uninstall = "pre-pre-uninstall"

abbrev pub stage_pre_pre_install : Stage
stage_pre_pre_install = "pre-pre-install"

abbrev pub stage_pre_install : Stage
stage_pre_install = "pre-install"

abbrev pub stage_pre_uninstall : Stage
stage_pre_uninstall = "pre-uninstall"

abbrev pub stage_install : Stage
stage_install = "install"

abbrev pub stage_uninstall : Stage
stage_uninstall = "uninstall"

abbrev pub stage_post_install : Stage
stage_post_install = "post-install"

abbrev pub stage_post_uninstall : Stage
stage_post_uninstall = "post-uninstall"

abbrev pub stage_post_post_install : Stage
stage_post_post_install = "post-post-install"

abbrev pub stage_post_post_uninstall : Stage
stage_post_post_uninstall = "post-post-uninstall"

abbrev pub stage_final : Stage
stage_final = "final"

abbrev pub stages_ordered : List Stage
stages_ordered =
    stage_init ∷ stage_pre_pre_uninstall ∷ stage_pre_pre_install ∷ stage_pre_install
    ∷ stage_pre_uninstall ∷ stage_install ∷ stage_uninstall ∷ stage_post_install
    ∷ stage_post_uninstall ∷ stage_post_post_install ∷ stage_post_post_uninstall ∷ stage_final ∷ []

abbrev pub stage_prefix : String
stage_prefix = "stage"

abbrev pub stage_start_suffix : String
stage_start_suffix = "start"

abbrev pub stage_end_suffix : String
stage_end_suffix = "end"

-- lo.IndexOf, which is -1 where the element is missing: `none` stands for the -1.
index_of : List String → String → Option ℕ
index_of [] s = none
index_of (x ∷ xs) s =
    if x == s then some 0 else elim (index_of xs s) [ none ↦ none | some i ↦ some (suc i) ]

-- index1 < index2 as Go compares the two integers.
index_lt : Option ℕ → Option ℕ → Bool
index_lt i none = false
index_lt none (some j) = true
index_lt (some i) (some j) = ltb i j

unfoldable pub stages_sort_handler : Stage → Stage → Bool
unfolding index_of index_lt
stages_sort_handler stage1 stage2 =
    index_lt (index_of stages_ordered stage1) (index_of stages_ordered stage2)

unfoldable pub sub_stage_weighted : Stage → ℤ → Stage
sub_stage_weighted stage weight = append_text stage (append_text "/weight:" (decimal_int weight))
