-- ===== src/Plan/Optimize/Metas.antt =====
-- The operations that Optimize (pkg/plan/plan.go) picks out to be squashed.
use nelm.Base.{
  String, append_text, Bool, true, Option, none, some, List, [], ◌∷◌, ◌≡◌, ap, subst, ◌==◌, ◌⊎◌,
  inl, inr, ok, find?, filter_by, All, arith, >>=-eq-ok, ok-injective, some-injective, Bool-cases,
}
use nelm.Common.{stage_start_suffix, stage_end_suffix}
use nelm.Plan.Operation.{category_resource, category_release, Operation, id}
use nelm.Plan.Optimize.{
  cut_suffix, is_category_track, is_category_meta, meta_pairs, is_meta_op, meta_pair,
}
use nelm.Plan.Chain.{must_find}
use mathlib.Core.Bool.{false≢true}

pub All-filter_by {ℓ κ} :
    {A : Type ℓ} (P : A → Type κ) (p : A → Bool) (xs : List A)
    → All P xs
    → All (λ x. P x × (p x ≡ true)) (filter_by p xs)
All-filter_by P p [] all = tt
All-filter_by P p (x ∷ xs) all = elim (Bool-cases (p x)) [
  | inl e ↦ rw e ((all.0, e), All-filter_by P p xs all.1)
  | inr e ↦ rw e (All-filter_by P p xs all.1)
]

find?-All {ℓ κ} :
    {A : Type ℓ} (P : A → Type κ) (p : A → Bool) (xs : List A) {x : A}
    → All P xs
    → find? p xs ≡ some x
    → P x
find?-All P p [] all h = cc
find?-All P p (y ∷ xs) all h = elim (Bool-cases (p y)) [
  | inl e ↦ subst P (some-injective (rw e at h)) all.0
  | inr e ↦ find?-All P p xs all.1 (rw e at h)
]

must_find-eq-ok : {A : Type 0} (o : Option A) {a : A} → must_find o ≡ ok a → o ≡ some a
must_find-eq-ok none h = cc
must_find-eq-ok (some a) h = ap some (ok-injective h)

-- The pairs are of operations of the two lists.
pub meta_pairs-All :
    (P : Operation → Type 0) (end_ops start_ops : List Operation)
    {pairs : List (Operation × Operation)}
    → All P end_ops
    → All P start_ops
    → meta_pairs end_ops start_ops ≡ ok pairs
    → All (λ pair. P pair.0 × P pair.1) pairs
unfolding meta_pairs meta_pair
meta_pairs-All P end_ops [] ends starts h =
    subst (All (λ pair. P pair.0 × P pair.1)) (ok-injective h) tt
meta_pairs-All P end_ops (start_op ∷ start_ops) ends starts h =
    let (pair, e₁, h₁) = >>=-eq-ok (meta_pair end_ops start_op) _ h in
    let (more, e₂, h₂) = >>=-eq-ok (meta_pairs end_ops start_ops) _ h₁ in
    let (cut, f₁, k₁) = >>=-eq-ok (must_find (cut_suffix (id start_op) stage_start_suffix)) _ e₁ in
    let (end_op, f₂, k₂) =
      >>=-eq-ok (must_find (find? (λ op. id op == append_text cut stage_end_suffix) end_ops)) _
        k₁ in
    subst (All (λ pair. P pair.0 × P pair.1)) (ok-injective h₂) (
      subst (λ q. P q.0 × P q.1) (ok-injective k₂)
          (starts.0, find?-All P _ end_ops ends (must_find-eq-ok _ f₂)),
      meta_pairs-All P end_ops start_ops ends starts.1 e₂,
    )

-- An operation on a resource or on a release.
abbrev pub IsLasting : Operation → Type 0
IsLasting op = (op.category ≡ category_resource) ⊎ (op.category ≡ category_release)

pub is_meta_op-category :
    (suffix : String) (op : Operation) → is_meta_op suffix op ≡ true → ¬ IsLasting op
unfolding is_meta_op is_category_meta
is_meta_op-category suffix op h (inl e) = let found = rw e at h in absurd (ground (arith, found))
is_meta_op-category suffix op h (inr e) = let found = rw e at h in absurd (ground (arith, found))

pub is_category_track-IsLasting :
    (op : Operation) → is_category_track op.category ≡ true → ¬ IsLasting op
unfolding is_category_track
is_category_track-IsLasting op h (inl e) = false≢true (rw e at h)
is_category_track-IsLasting op h (inr e) = false≢true (rw e at h)
