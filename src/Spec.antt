-- ===== src/Spec.antt =====
-- pkg/resource/spec: what identifies a Kubernetes resource (resource_meta.go), how a resource is
-- matched (resource_match.go), and the kinds that the code singles out (util.go).
pub mod Sort
use nelm.Common.{StoreAs}
use nelm.Base.{
  String, append_text, Bool, true, false, List, contains, ◌==◌, ◌&&◌, ◌||◌, if◌then◌else◌, nat_eq,
  length,
}

pub record GroupVersionKind : Type 0 where
  pub group : String
  pub version : String
  pub kind : String

-- A Go map of annotations or labels, as the list of its entries in the order of one iteration.
abbrev pub StringMap : Type 0
StringMap = List (String × String)

pub record ResourceMeta : Type 0 where
  pub name : String
  pub namespace : String
  pub gvk : GroupVersionKind
  pub file_path : String
  pub annotations : StringMap
  pub labels : StringMap

unfoldable pub new_resource_meta :
    String → String → String → String → GroupVersionKind → StringMap → StringMap → ResourceMeta
new_resource_meta name namespace release_namespace file_path gvk annotations labels = record {
  name = name;
  namespace = if release_namespace == namespace then "" else namespace;
  gvk = gvk;
  file_path = file_path;
  annotations = annotations;
  labels = labels;
}

-- fmt.Sprintf("%s:%s:%s:%s", namespace, group, kind, name)
unfoldable pub resource_id : String → String → String → String → String
resource_id name namespace group kind = append_text namespace (
    append_text ":" (append_text group (append_text ":" (append_text kind (append_text ":" name)))))

abbrev pub meta_id : ResourceMeta → String
meta_id m = resource_id m.name m.namespace m.gvk.group m.gvk.kind

pub record ResourceMatcher : Type 0 where
  pub names : List String
  pub namespaces : List String
  pub groups : List String
  pub versions : List String
  pub kinds : List String

-- One block of `Match`: an empty filter matches everything.
field_match : List String → String → Bool
field_match filter value = if nat_eq (length filter) 0 then true else contains filter value

unfoldable pub match : ResourceMatcher → ResourceMeta → Bool
unfolding field_match
match s m =
    if field_match s.names m.name
    then if field_match s.namespaces m.namespace
      then if field_match s.groups m.gvk.group
        then if field_match s.versions m.gvk.version
          then if field_match s.kinds m.gvk.kind then true else false
          else false
        else false
      else false
    else false

unfoldable pub is_crd : GroupVersionKind → Bool
is_crd gvk = gvk.group == "apiextensions.k8s.io" && gvk.kind == "CustomResourceDefinition"

unfoldable pub is_namespace : GroupVersionKind → Bool
is_namespace gvk = gvk.group == "" && gvk.kind == "Namespace"

unfoldable pub is_release_namespace : String → GroupVersionKind → String → Bool
is_release_namespace resource_name gvk release_namespace =
    gvk.group == "" && gvk.kind == "Namespace" && resource_name == release_namespace

unfoldable pub is_webhook : GroupVersionKind → Bool
is_webhook gvk =
    gvk.group == "admissionregistration.k8s.io" && gvk.kind == "MutatingWebhookConfiguration"
    || gvk.group == "admissionregistration.k8s.io" && gvk.kind == "ValidatingWebhookConfiguration"

-- A Kubernetes object as the code reads it: what its accessors return, and the rest of its content.
pub record Unstructured : Type 0 where
  pub uid : String
  pub name : String
  pub namespace : String
  pub gvk : GroupVersionKind
  pub annotations : StringMap
  pub labels : StringMap
  pub content : String

abbrev pub meta_from_unstructured : Unstructured → String → String → ResourceMeta
meta_from_unstructured u release_namespace file_path =
    new_resource_meta u.name u.namespace release_namespace file_path u.gvk u.annotations u.labels

pub record ResourceSpec : Type 0 where
  pub meta : ResourceMeta
  pub unstruct : Unstructured
  pub store_as : StoreAs
