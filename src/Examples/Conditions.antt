-- ===== src/Examples/Conditions.antt =====
-- The commands and stages of a hook, of a resource with an annotation of werf, and of a definition of
-- resources (deployConditions of pkg/resource/metadata.go).
use nelm.Base.{
  String, List, [], ◌∷◌, ◌≡◌, refl, ok, Result, ◌>>=◌, trim_space, split_commas, matches_pattern,
}
use nelm.Common.{
  On, on_install, on_upgrade, on_delete, Stage, stage_pre_pre_install, stage_pre_install,
  stage_install, stage_post_install, stages_sort_handler,
}
use nelm.Spec.{ResourceMeta, StringMap, is_crd, is_namespace}
use nelm.Resource.Metadata.{value_of, find_by_key_pattern, is_hook}
use nelm.Resource.DeployConditions.{validate_deploy_on, validate_hook, deploy_conditions}
use nelm.Resource.DeployConditions.Placed.{Allows, deploy_conditions-Allows}

abbrev annotated : String → String → StringMap → ResourceMeta
annotated group kind annotations = record {
  name = "sample";
  namespace = "";
  gvk = record { group = group; version = "v1"; kind = kind };
  file_path = "";
  annotations = annotations;
  labels = [];
}

abbrev hook : ResourceMeta
hook = annotated "batch" "Job" (("helm.sh/hook", "post-install, pre-install,pre-upgrade") ∷ [])

abbrev early_definition : ResourceMeta
early_definition =
    annotated "apiextensions.k8s.io" "CustomResourceDefinition"
      (("werf.io/deploy-on", "install,upgrade") ∷ [])

abbrev stages_at : On → (On → List Stage) → Result (List Stage)
stages_at on conditions = ok (conditions on)

conditions_test :
    ((deploy_conditions hook >>= stages_at on_install)
      ≡ ok (stage_pre_install ∷ stage_post_install ∷ []))
    × ((deploy_conditions hook >>= stages_at on_upgrade) ≡ ok (stage_pre_install ∷ []))
    × ((deploy_conditions early_definition >>= stages_at on_install)
        ≡ ok (stage_pre_pre_install ∷ []))
    × ((deploy_conditions early_definition >>= stages_at on_delete) ≡ ok [])
    × ((deploy_conditions (annotated "" "ConfigMap" []) >>= stages_at on_upgrade)
        ≡ ok (stage_install ∷ []))
unfolding deploy_conditions value_of find_by_key_pattern is_hook trim_space split_commas
    matches_pattern is_crd is_namespace stages_sort_handler
conditions_test = (refl, refl, refl, refl, refl)

accepted : (validate_hook hook ≡ ok tt) × (validate_deploy_on hook ≡ ok tt)
unfolding validate_hook validate_deploy_on value_of find_by_key_pattern trim_space split_commas
    matches_pattern
accepted = (refl, refl)

deploy_conditions-Allows_example : Allows hook on_install (deploy_conditions hook)
deploy_conditions-Allows_example = deploy_conditions-Allows hook on_install accepted.0 accepted.1
