-- ===== src/Plan/Infos/Iterations.antt =====
-- The iterations that iterateInstallableResourceInfos (pkg/plan/resource_info.go) gives to the infos
-- of one resource.
use nelm.Base.{
  String, ℕ, zero, suc, Bool, true, false, none, some, List, [], ◌∷◌, ◌++◌, map, ◌≡◌, refl, ap, sym,
  ◌∙◌, subst, ◌==◌, ◌&&◌, ◌||◌, not, ◌⊎◌, inl, inr, ok, if◌then◌else◌, find?, any, contains, All,
  nat_eq, arith, eq_iff, >>=-eq-ok, ok-injective, Bool-cases,
}
use nelm.Common.{policy_skip_create}
use nelm.Plan.Info.{InstallableResourceInfo, info_id}
use nelm.Plan.Infos.{
  iteration_after, iterate_seen, highest_iteration, recreate_after, recreate_iteration,
  recreate_from, iterate_installable_resource_infos,
}
use nelm.Plan.Chain.{must_find}
use nelm.Plan.Build.Resources.{is_install_none}

same_id : String → InstallableResourceInfo → Bool
same_id i inf = i == info_id inf

-- 0 for the first info of a resource, 1 for every later one.
abbrev pub marks : List InstallableResourceInfo → List InstallableResourceInfo → List ℕ
marks before [] = []
marks before (info ∷ infos) =
    (if any (λ inf. info_id info == info_id inf) before then 1 else 0)
    ∷ marks (before ++ info ∷ []) infos

module _ {ℓ} {A : Type ℓ} (p : A → Bool) where
  find?-append_some :
      (xs : List A) (y x : A) → find? p xs ≡ some x → find? p (xs ++ y ∷ []) ≡ some x
  find?-append_some [] y x h = absurd (cc h)
  find?-append_some (z ∷ xs) y x h = elim (Bool-cases (p z)) [
    | inl e ↦ rw e (rw e at h)
    | inr e ↦ rw e (find?-append_some xs y x (rw e at h))
  ]

  find?-append_none :
      (xs : List A) (y : A)
      → find? p xs ≡ none
      → find? p (xs ++ y ∷ []) ≡ (if p y then some y else none)
  find?-append_none [] y h = refl
  find?-append_none (z ∷ xs) y h = elim (Bool-cases (p z)) [
    | inl e ↦ absurd (cc (rw e at h))
    | inr e ↦ rw e (find?-append_none xs y (rw e at h))
  ]

  any-append_one : (xs : List A) (y : A) → any p (xs ++ y ∷ []) ≡ (any p xs || p y)
  any-append_one [] y = ground arith
  any-append_one (z ∷ xs) y = let later = any-append_one xs y in ground (arith, later)

-- What was seen has the resources of what came before, each first with iteration 0.
Seen : List InstallableResourceInfo → List InstallableResourceInfo → String → Type 0
Seen before seen i =
    ((find? (same_id i) seen ≡ none) × (any (same_id i) before ≡ false))
    ⊎ ((s : InstallableResourceInfo) × (find? (same_id i) seen ≡ some s)
        × (any (same_id i) before ≡ true)
        × (s.iteration ≡ 0))

module _ (before seen : List InstallableResourceInfo) (info info' : InstallableResourceInfo)
    (same : info_id info' ≡ info_id info)
    (first : find? (same_id (info_id info)) seen ≡ none → info'.iteration ≡ 0) where
  grow-Seen : (i : String) → Seen before seen i → Seen (before ++ info ∷ []) (seen ++ info' ∷ []) i
  unfolding Seen same_id
  grow-Seen i (inl (f, a)) = elim (Bool-cases (i == info_id info)) [
    | inl e ↦
        let there = find?-append_none (same_id i) seen info' f in
        let counted = any-append_one (same_id i) before info in
        inr (
          info',
          there ∙ rw (same, e),
          counted ∙ rw (a, e),
          first (subst (λ k. find? (same_id k) seen ≡ none) ((eq_iff i (info_id info)).0 e) f),
        )
    | inr e ↦
        let there = find?-append_none (same_id i) seen info' f in
        let counted = any-append_one (same_id i) before info in
        inl (there ∙ rw (same, e), counted ∙ rw (a, e))
  ]
  grow-Seen i (inr (s, f, a, z)) = inr (
    s,
    find?-append_some (same_id i) seen info' s f,
    any-append_one (same_id i) before info ∙ rw a,
    z,
  )

iterate_seen-marks :
    (before seen infos : List InstallableResourceInfo)
    → ((i : String) → Seen before seen i)
    → All (λ info. info.iteration ≡ 0) infos
    → map (λ info. info.iteration) (iterate_seen seen infos) ≡ marks before infos
unfolding iterate_seen iteration_after Seen same_id
iterate_seen-marks before seen [] inv start = refl
iterate_seen-marks before seen (info ∷ infos) inv start = elim (inv (info_id info)) [
  | inl (f, a) ↦
      let rest =
        iterate_seen-marks (before ++ info ∷ []) (seen ++ info ∷ []) infos
          (λ i. grow-Seen before seen info info refl (λ _. start.0) i (inv i)) start.1 in
      rw (f, a)
        (ap (λ n. n ∷ map (λ k. k.iteration) (iterate_seen (seen ++ info ∷ []) infos)) start.0
          ∙ ap (λ l. 0 ∷ l) rest)
  | inr (s, f, a, z) ↦
      let info' : InstallableResourceInfo = record info { iteration = suc s.iteration } in
      let rest =
        iterate_seen-marks (before ++ info ∷ []) (seen ++ info' ∷ []) infos
          (λ i. grow-Seen before seen info info' refl (λ n. absurd (cc (sym f ∙ n))) i (inv i))
          start.1 in
      rw (f, a)
        (ap (λ n. suc n ∷ map (λ k. k.iteration) (iterate_seen (seen ++ info' ∷ []) infos)) z
          ∙ ap (λ l. 1 ∷ l) rest)
]

recreate_after-iteration :
    (infos : List InstallableResourceInfo) (info info' : InstallableResourceInfo)
    → recreate_after infos info ≡ ok info'
    → info'.iteration ≡ info.iteration
unfolding recreate_after
recreate_after-iteration infos info info' h =
    elim (Bool-cases (is_install_none info.must_install)) [
      | inl e ↦ ap (λ k. k.iteration) (sym (ok-injective (rw e at h)))
      | inr e ↦
          let (prev, _, done) = >>=-eq-ok (must_find (find? _ infos)) _ (rw e at h) in
          elim (Bool-cases (
            prev.must_delete_on_successful_install
            && not (contains info.local_resource.resource_policies policy_skip_create))) [
              | inl f ↦ ap (λ k. k.iteration) (sym (ok-injective (rw f at done)))
              | inr f ↦ ap (λ k. k.iteration) (sym (ok-injective (rw f at done)))
            ]
    ]

recreate_one-iteration :
    (all_infos : List InstallableResourceInfo) (iter : ℕ) (info info' : InstallableResourceInfo)
    → (if nat_eq info.iteration iter then recreate_after all_infos info else ok info) ≡ ok info'
    → info'.iteration ≡ info.iteration
recreate_one-iteration all_infos iter info info' h =
    elim (Bool-cases (nat_eq info.iteration iter)) [
      | inl e ↦ recreate_after-iteration all_infos info info' (rw e at h)
      | inr e ↦ ap (λ k. k.iteration) (sym (ok-injective (rw e at h)))
    ]

recreate_iteration-iterations :
    (all_infos : List InstallableResourceInfo) (iter : ℕ)
    (infos infos' : List InstallableResourceInfo)
    → recreate_iteration all_infos iter infos ≡ ok infos'
    → map (λ info. info.iteration) infos' ≡ map (λ info. info.iteration) infos
unfolding recreate_iteration
recreate_iteration-iterations all_infos iter [] infos' h =
    ap (map (λ info. info.iteration)) (sym (ok-injective h))
recreate_iteration-iterations all_infos iter (info ∷ infos) infos' h =
    let (info₁, e₁, h₁) =
      >>=-eq-ok (if nat_eq info.iteration iter then recreate_after all_infos info else ok info) _
        h in
    let (rest, e₂, h₂) = >>=-eq-ok (recreate_iteration all_infos iter infos) _ h₁ in
    ap (map (λ k. k.iteration)) (sym (ok-injective h₂))
    ∙ rw (
      recreate_one-iteration all_infos iter info info₁ e₁,
      recreate_iteration-iterations all_infos iter infos rest e₂,
    )

recreate_from-iterations :
    (rounds iter : ℕ) (infos infos' : List InstallableResourceInfo)
    → recreate_from rounds iter infos ≡ ok infos'
    → map (λ info. info.iteration) infos' ≡ map (λ info. info.iteration) infos
unfolding recreate_from
recreate_from-iterations zero iter infos infos' h =
    ap (map (λ info. info.iteration)) (sym (ok-injective h))
recreate_from-iterations (suc rounds) iter infos infos' h =
    let (infos₁, e, h₁) = >>=-eq-ok (recreate_iteration infos iter infos) _ h in
    recreate_from-iterations rounds (suc iter) infos₁ infos' h₁
    ∙ recreate_iteration-iterations infos iter infos infos₁ e

-- Started from iteration 0 everywhere and ended without a panic, the pass gives iteration 0 to the
-- first info of each resource and iteration 1 to every later one, to a third or fourth as well.
pub iterate_installable_resource_infos-marks :
    (infos infos' : List InstallableResourceInfo)
    → All (λ info. info.iteration ≡ 0) infos
    → iterate_installable_resource_infos infos ≡ ok infos'
    → map (λ info. info.iteration) infos' ≡ marks [] infos
unfolding iterate_installable_resource_infos Seen
iterate_installable_resource_infos-marks infos infos' start h =
    recreate_from-iterations (highest_iteration (iterate_seen [] infos)) 1 (iterate_seen [] infos)
      infos' h
    ∙ iterate_seen-marks [] [] infos (λ i. inl (refl, refl)) start
