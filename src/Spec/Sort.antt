-- ===== src/Spec/Sort.antt =====
-- pkg/resource/spec/sort.go: the order in which resources are stored and processed.
use text.Mathlib.TextPositions.{compare_refl}
use nelm.Base.{String, Bool, true, false, ◌≡◌, refl, ◌==◌, not, if◌then◌else◌, text_lt, eq_iff}
use nelm.Common.{StoreAs, store_as_none, store_as_hook, store_as_regular}
use nelm.Spec.{ResourceMeta, ResourceSpec}

-- Whether two resources are stored in one way.
same_store : StoreAs → StoreAs → Bool
same_store store_as_none store_as_none = true
same_store store_as_hook store_as_hook = true
same_store store_as_regular store_as_regular = true
same_store _ _ = false

-- The branch for different ways of storing.
stored_before : StoreAs → StoreAs → Bool
stored_before store_as_none s = true
stored_before store_as_hook store_as_none = false
stored_before store_as_hook s = true
stored_before store_as_regular s = false

unfoldable pub resource_meta_sort_handler : ResourceMeta → ResourceMeta → Bool
resource_meta_sort_handler r1 r2 =
    if not (r1.gvk.kind == r2.gvk.kind)
    then text_lt r1.gvk.kind r2.gvk.kind
    else if not (r1.gvk.group == r2.gvk.group)
    then text_lt r1.gvk.group r2.gvk.group
    else if not (r1.gvk.version == r2.gvk.version)
    then text_lt r1.gvk.version r2.gvk.version
    else if not (r1.namespace == r2.namespace)
    then text_lt r1.namespace r2.namespace
    else text_lt r1.name r2.name

unfoldable pub resource_spec_sort_handler : ResourceSpec → ResourceSpec → Bool
unfolding resource_meta_sort_handler same_store stored_before
resource_spec_sort_handler r1 r2 =
    if not (same_store r1.store_as r2.store_as)
    then stored_before r1.store_as r2.store_as
    else resource_meta_sort_handler r1.meta r2.meta

text_lt_refl : (s : String) → text_lt s s ≡ false
text_lt_refl s = rw (text_lt, compare_refl s) refl

same_text : (s : String) → (s == s) ≡ true
same_text s = (eq_iff s s).1 refl

meta_sort_refl : (r : ResourceMeta) → resource_meta_sort_handler r r ≡ false
unfolding resource_meta_sort_handler
meta_sort_refl r =
    rw
      (
        same_text r.gvk.kind,
        same_text r.gvk.group,
        same_text r.gvk.version,
        same_text r.namespace,
        text_lt_refl r.name,
      )
      refl

same_store_refl : (s : StoreAs) → same_store s s ≡ true
unfolding same_store
same_store_refl store_as_none = refl
same_store_refl store_as_hook = refl
same_store_refl store_as_regular = refl

-- A resource does not sort before itself.
pub resource_spec_sort_refl : (r : ResourceSpec) → resource_spec_sort_handler r r ≡ false
unfolding resource_spec_sort_handler
resource_spec_sort_refl r = rw (same_store_refl r.store_as) (meta_sort_refl r.meta)
