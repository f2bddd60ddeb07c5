-- ===== src/Examples/Deployment.antt =====
-- A small release: a job with a weight that waits for a config map and for a secret outside of the
-- release, and that is deleted once it has succeeded; an obsolete service to delete; and a first
-- revision to install.
use nelm.Base.{String, true, false, none, some, List, [], ◌∷◌, sym, Result, ok, ok-injective, pos}
use nelm.Common.{
  absent, present, store_as_regular, ownership_release, stage_install, stage_uninstall,
  stage_post_post_install,
}
use nelm.Spec.{ResourceMeta, ResourceMatcher, ResourceSpec}
use nelm.Resource.{
  IntPtr, fail_whole_deploy_process_immediately, wait_until_resource_ready, InternalDependency,
  ExternalDependency, InstallableResource,
}
use nelm.Release.{unknown, HelmRelease}
use nelm.Plan.Info.{
  install_create, InstallableResourceInfo, DeletableResourceInfo, release_install, ReleaseInfo,
}
use nelm.Plan.Build.Stages.{StageWeights}
use nelm.Examples.ListGraph.{Entry, list_graph}
use nelm.Plan.Build.Compose.{build_graph}
use nelm.Plan.Build.Releases.Placed.{IsCopy}
use nelm.Plan.Build.Stages.Weighted.{KeepsEntries}

abbrev meta_of : String → String → String → ResourceMeta
meta_of group kind name = record {
  name = name;
  namespace = "";
  gvk = record { group = group; version = "v1"; kind = kind };
  file_path = "";
  annotations = [];
  labels = [];
}

abbrev spec_of : ResourceMeta → ResourceSpec
spec_of m = record {
  meta = m;
  unstruct = record {
    uid = "";
    name = m.name;
    namespace = m.namespace;
    gvk = m.gvk;
    annotations = [];
    labels = [];
    content = "";
  };
  store_as = store_as_regular;
}

abbrev any_kind : String → ResourceMatcher
any_kind kind = record {
  names = [];
  namespaces = [];
  groups = [];
  versions = [];
  kinds = kind ∷ [];
}

abbrev plain_resource : ResourceMeta → InstallableResource
plain_resource m = record {
  spec = spec_of m;
  ownership = ownership_release;
  recreate = false;
  recreate_on_immutable = false;
  resource_policies = [];
  default_replicas_on_creation = none;
  delete_on_succeeded = false;
  delete_on_failed = false;
  fail_mode = fail_whole_deploy_process_immediately;
  failures_allowed = pos 1;
  ignore_readiness_probe_fails_for_containers = [];
  log_regex = none;
  log_regexes_for_containers = [];
  no_activity_timeout = pos 240000000000;
  show_logs_only_for_containers = [];
  show_service_messages = false;
  show_logs_only_for_number_of_replicas = pos 1;
  skip_logs = false;
  skip_logs_for_containers = [];
  skip_logs_regex = none;
  skip_logs_regex_for_containers = [];
  track_termination_mode = wait_until_resource_ready;
  weight = none;
  manual_internal_dependencies = [];
  auto_internal_dependencies = [];
  external_dependencies = [];
  deploy_conditions = λ on. stage_install ∷ [];
  delete_propagation = "Foreground";
}

abbrev info_of : InstallableResource → InstallableResourceInfo
info_of r = record {
  meta = r.spec.meta;
  local_resource = r;
  get_result = none;
  dry_apply_result = none;
  dry_apply_err = none;
  must_install = install_create;
  must_delete_on_successful_install = false;
  must_delete_on_failed_install = false;
  must_track_readiness = true;
  fail_mode = r.fail_mode;
  stage = stage_install;
  stage_delete_on_successful_install = "";
  iteration = 0;
}

abbrev pub secret_dependency : ExternalDependency
secret_dependency = record { meta = meta_of "" "Secret" "token" }

abbrev pub config_dependency : InternalDependency
config_dependency = record { matcher = any_kind "ConfigMap"; resource_state = present }

abbrev pub config : InstallableResourceInfo
config = info_of (plain_resource (meta_of "" "ConfigMap" "settings"))

abbrev pub job_weight : IntPtr
job_weight = record { address = 1; value = pos 5 }

abbrev pub job : InstallableResourceInfo
job =
    record (info_of (record (plain_resource (meta_of "batch" "Job" "migrate")) {
      weight = some job_weight;
      external_dependencies = secret_dependency ∷ [];
      manual_internal_dependencies = config_dependency ∷ [];
    })) {
      must_delete_on_successful_install = true;
      stage_delete_on_successful_install = stage_post_post_install;
    }

abbrev pub obsolete : DeletableResourceInfo
obsolete = record {
  meta = meta_of "" "Service" "old";
  get_result = none;
  local_resource = record {
    meta = meta_of "" "Service" "old";
    auto_internal_dependencies = [];
    delete_propagation = "Foreground";
    manual_internal_dependencies = [];
    ownership = ownership_release;
    resource_policies = [];
  };
  must_delete = true;
  must_track_absence = true;
  stage = stage_uninstall;
}

-- A second obsolete resource, deleted only after the first is gone.
abbrev pub service_dependency : InternalDependency
service_dependency = record { matcher = any_kind "Service"; resource_state = absent }

abbrev pub obsolete_backend : DeletableResourceInfo
obsolete_backend = record obsolete {
  meta = meta_of "apps" "Deployment" "old";
  local_resource = record obsolete.local_resource {
    meta = meta_of "apps" "Deployment" "old";
    manual_internal_dependencies = service_dependency ∷ [];
  };
}

abbrev pub first_revision : ReleaseInfo
first_revision = record {
  release = record {
    name = "app";
    namespace = "prod";
    version = 1;
    status = unknown;
    first_deployed = 0;
    last_deployed = 0;
  };
  must = release_install;
  must_fail_on_failed_deploy = true;
}

abbrev pub inst_infos : List InstallableResourceInfo
inst_infos = config ∷ job ∷ []

abbrev pub del_infos : List DeletableResourceInfo
del_infos = obsolete ∷ obsolete_backend ∷ []

abbrev pub release_infos : List ReleaseInfo
release_infos = first_revision ∷ []

abbrev pub copy : HelmRelease → Result HelmRelease
copy rel = ok rel

pub copy-IsCopy : IsCopy copy
copy-IsCopy rel rel' h = sym (ok-injective h)

-- The map of stages is visited in the order in which it was filled.
abbrev pub visit : StageWeights → StageWeights
visit m = m

pub visit-KeepsEntries : KeepsEntries visit
visit-KeepsEntries e m h = h

graph_of : Result (List Entry) → List Entry
graph_of (ok g) = g
graph_of _ = []

unfoldable pub example_graph : List Entry
unfolding graph_of build_graph
example_graph = graph_of (build_graph list_graph copy visit inst_infos del_infos release_infos)
