-- ===== src/Resource/Sort.antt =====
-- pkg/resource/sort.go: resources by weight.
use nelm.Base.{
  Bool, true, false, Option, none, some, ◌≡◌, refl, not, if◌then◌else◌, ltb, nat_eq, arith, ℤ, pos,
  negsuc,
}
use nelm.Resource.{IntPtr, InstallableResource}
use nelm.Spec.Sort.{resource_spec_sort_handler, resource_spec_sort_refl}

int_lt : ℤ → ℤ → Bool
int_lt (pos a) (pos b) = ltb a b
int_lt (pos a) (negsuc b) = false
int_lt (negsuc a) (pos b) = true
int_lt (negsuc a) (negsuc b) = ltb b a

-- By the weights; the two pointers are compared and not what they point to.
sort_by_weight : Option IntPtr → Option IntPtr → Bool → Bool
unfolding int_lt
sort_by_weight none w2 otherwise = true
sort_by_weight (some w1) none otherwise = false
sort_by_weight (some w1) (some w2) otherwise =
    if not (nat_eq w1.address w2.address) then int_lt w1.value w2.value else otherwise

unfoldable pub installable_resource_sort_by_weight_handler :
    InstallableResource → InstallableResource → Bool
unfolding sort_by_weight
installable_resource_sort_by_weight_handler r1 r2 =
    sort_by_weight r1.weight r2.weight (resource_spec_sort_handler r1.spec r2.spec)

abbrev pub has_weight : Option IntPtr → Bool
has_weight none = false
has_weight (some w) = true

sort_by_weight_self :
    (w : Option IntPtr) (otherwise : Bool)
    → otherwise ≡ false
    → sort_by_weight w w otherwise ≡ not (has_weight w)
unfolding sort_by_weight
sort_by_weight_self none otherwise h = refl
sort_by_weight_self (some w) otherwise h =
    let same : nat_eq w.address w.address ≡ true = ground arith in rw (same, h) refl

-- A resource sorts before itself exactly if it has no weight: the handler is not an order on the
-- resources without one.
pub installable_resource_sort_by_weight_handler_self :
    (r : InstallableResource)
    → installable_resource_sort_by_weight_handler r r ≡ not (has_weight r.weight)
unfolding installable_resource_sort_by_weight_handler
installable_resource_sort_by_weight_handler_self r =
    sort_by_weight_self r.weight (resource_spec_sort_handler r.spec r.spec)
      (resource_spec_sort_refl r.spec)

int_lt_refl : (a : ℤ) → int_lt a a ≡ false
unfolding int_lt
int_lt_refl (pos a) = ground arith
int_lt_refl (negsuc a) = ground arith

-- Two resources whose weights are equal but stand at two addresses do not sort before one another,
-- whatever else distinguishes them.
pub installable_resource_sort_by_weight_handler-equal :
    (r1 r2 : InstallableResource) (w1 w2 : IntPtr)
    → r1.weight ≡ some w1
    → r2.weight ≡ some w2
    → nat_eq w1.address w2.address ≡ false
    → w1.value ≡ w2.value
    → (installable_resource_sort_by_weight_handler r1 r2 ≡ false)
      × (installable_resource_sort_by_weight_handler r2 r1 ≡ false)
unfolding installable_resource_sort_by_weight_handler sort_by_weight
installable_resource_sort_by_weight_handler-equal r1 r2 w1 w2 e1 e2 apart same =
    let apart' : nat_eq w2.address w1.address ≡ false = ground (arith, apart) in
    (
      rw (e1, e2, apart, same) (int_lt_refl w2.value),
      rw (e1, e2, apart', same) (int_lt_refl w2.value),
    )
