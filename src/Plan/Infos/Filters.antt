-- ===== src/Plan/Infos/Filters.antt =====
-- What filterDelResourcesPresentInInstResources and deduplicateDeletableResourceInfos
-- (pkg/plan/resource_info.go) leave.
use mathlib.Core.List.Memᴰ
use mathlib.Core.Logic.{⊎_elim}
use nelm.Base.{
  String, Bool, true, false, Option, none, some, List, [], ◌∷◌, Memᴰ, ◌≡◌, ◌↔◌, refl, ap, sym, ◌∙◌,
  subst, ◌==◌, not, ◌⊎◌, inl, inr, filter_by, any, contains, All, arith, eq_iff, Bool-cases,
  Option-cases,
}
use nelm.Spec.{meta_id, Unstructured}
use nelm.Plan.Info.{InstallableResourceInfo, DeletableResourceInfo}
use nelm.Plan.Infos.{
  inst_resources_uids, is_present, filter_del_resources_present_in_inst_resources, uniq_by_id,
  deduplicate_deletable_resource_infos,
}
use mathlib.Core.Bool.{false≢true}

uid-mem :
    (infos : List InstallableResourceInfo) (info : InstallableResourceInfo) (u : Unstructured)
    → Memᴰ info infos
    → info.get_result ≡ some u
    → contains (inst_resources_uids infos) u.uid ≡ true
unfolding inst_resources_uids
uid-mem [] info u m e = absurd (Memᴰ.not-nil m)
uid-mem (i ∷ infos) info u m e =
    ⊎_elim
      (λ (same : info ≡ i).
        let got : i.get_result ≡ some u =
          ap (λ (k : InstallableResourceInfo). k.get_result) (sym same) ∙ e in
        rw got (ground (arith, (eq_iff u.uid u.uid).1 refl)))
      (λ later.
        let found = uid-mem infos info u later e in
        elim (Option-cases i.get_result) [
          | inl n ↦ rw n found
          | inr (v, s) ↦ rw s (ground (arith, found))
        ])
      (Memᴰ.cases_cons m)

mem-filter_by {ℓ} :
    {A : Type ℓ} (p : A → Bool) (x : A) (xs : List A)
    → Memᴰ x (filter_by p xs) ↔ ((p x ≡ true) × Memᴰ x xs)
mem-filter_by p x xs = (leaves xs, λ h. keeps xs h.0 h.1)
  where
    leaves : (xs : List _) → Memᴰ x (filter_by p xs) → (p x ≡ true) × Memᴰ x xs
    leaves [] m = absurd (Memᴰ.not-nil m)
    leaves (y ∷ xs) m = elim (Bool-cases (p y)) [
      | inl e ↦
          ⊎_elim (λ same. (ap p same ∙ e, Memᴰ.head same))
            (λ later. let (q, n) = leaves xs later in (q, Memᴰ.tail n))
            (Memᴰ.cases_cons (rw e at m))
      | inr e ↦ let (q, n) = leaves xs (rw e at m) in (q, Memᴰ.tail n)
    ]

    keeps : (xs : List _) → p x ≡ true → Memᴰ x xs → Memᴰ x (filter_by p xs)
    keeps [] h m = absurd (Memᴰ.not-nil m)
    keeps (y ∷ xs) h m = elim (Bool-cases (p y)) [
      | inl e ↦ rw e (
          ⊎_elim (λ same. Memᴰ.head same) (λ later. Memᴰ.tail (keeps xs h later))
            (Memᴰ.cases_cons m))
      | inr e ↦
          ⊎_elim (λ same. absurd (false≢true (sym e ∙ ap p (sym same) ∙ h)))
            (λ later. rw e (keeps xs h later)) (Memᴰ.cases_cons m)
    ]

-- An installed resource was found as an object of this UID.
abbrev pub FoundAs : List InstallableResourceInfo → String → Type 0
FoundAs infos uid =
    (info : InstallableResourceInfo) × (u : Unstructured) × Memᴰ info infos
    × (info.get_result ≡ some u)
    × (u.uid ≡ uid)

-- No installed resource was found as the object, if there is one.
abbrev pub IsForeign : List InstallableResourceInfo → Option Unstructured → Type 0
IsForeign infos none = Unit
IsForeign infos (some v) = ¬ FoundAs infos v.uid

uids-FoundAs :
    (infos : List InstallableResourceInfo) (uid : String)
    → contains (inst_resources_uids infos) uid ≡ true
    → FoundAs infos uid
unfolding inst_resources_uids
uids-FoundAs [] uid h = cc
uids-FoundAs (i ∷ infos) uid h = elim (Option-cases i.get_result) [
  | inl n ↦
      let (info, u, m, e, same) = uids-FoundAs infos uid (rw n at h) in
      (info, u, Memᴰ.tail m, e, same)
  | inr (v, s) ↦ elim (Bool-cases (v.uid == uid)) [
    | inl e ↦ (i, v, Memᴰ.head refl, s, (eq_iff v.uid uid).0 e)
    | inr e ↦
        let (info, u, m, found, same) = uids-FoundAs infos uid (rw (s, e) at h) in
        (info, u, Memᴰ.tail m, found, same)
  ]
]

is_present-IsForeign :
    (infos : List InstallableResourceInfo) (o : Option Unstructured)
    → (not (is_present (inst_resources_uids infos) o) ≡ true) ↔ IsForeign infos o
unfolding is_present
is_present-IsForeign infos none = (λ _. tt, λ _. refl)
is_present-IsForeign infos (some v) = (
  λ kept (info, u, m, e, same).
      let found = rw same at (uid-mem infos info u m e) in absurd (ground (arith, kept, found)),
  λ foreign. elim (Bool-cases (contains (inst_resources_uids infos) v.uid)) [
    | inl e ↦ absurd (foreign (uids-FoundAs infos v.uid e))
    | inr e ↦ rw e refl
  ],
)

-- The filter leaves exactly the infos of the list that have no object in the cluster, and those whose
-- object has a UID that no object has as which an installed resource was found.
pub filter_del_resources-mem :
    (inst_infos : List InstallableResourceInfo) (del_infos : List DeletableResourceInfo)
    (del : DeletableResourceInfo)
    → Memᴰ del (filter_del_resources_present_in_inst_resources inst_infos del_infos)
      ↔ (IsForeign inst_infos del.get_result × Memᴰ del del_infos)
unfolding filter_del_resources_present_in_inst_resources
filter_del_resources-mem inst_infos del_infos del =
    let left =
      mem-filter_by (λ info. not (is_present (inst_resources_uids inst_infos) info.get_result)) del
        del_infos in
    let foreign = is_present-IsForeign inst_infos del.get_result in
    (λ m. let (kept, there) = left.0 m in (foreign.0 kept, there), λ h. left.1 (foreign.1 h.0, h.1))

-- No two infos of the list have one identifier.
abbrev pub DistinctIds : List DeletableResourceInfo → Type 0
DistinctIds [] = Unit
DistinctIds (info ∷ infos) =
    All (λ k. (meta_id info.meta == meta_id k.meta) ≡ false) infos × DistinctIds infos

uniq_by_id-apart :
    (seen : List String) (i : String) (infos : List DeletableResourceInfo)
    → contains seen i ≡ true
    → All (λ k. (i == meta_id k.meta) ≡ false) (uniq_by_id seen infos)
unfolding uniq_by_id
uniq_by_id-apart seen i [] h = tt
uniq_by_id-apart seen i (info ∷ infos) h = elim (Bool-cases (contains seen (meta_id info.meta))) [
  | inl e ↦ rw e (uniq_by_id-apart seen i infos h)
  | inr e ↦ rw e (
    apart (meta_id info.meta) e,
    uniq_by_id-apart (meta_id info.meta ∷ seen) i infos (ground (arith, h)),
  )
]
  where
    apart : (b : String) → contains seen b ≡ false → (i == b) ≡ false
    apart b e = elim (Bool-cases (i == b)) [
      | inl s ↦
          absurd (false≢true (sym e ∙ subst (λ k. contains seen k ≡ true) ((eq_iff i b).0 s) h))
      | inr s ↦ s
    ]

uniq_by_id-DistinctIds :
    (seen : List String) (infos : List DeletableResourceInfo) → DistinctIds (uniq_by_id seen infos)
unfolding uniq_by_id
uniq_by_id-DistinctIds seen [] = tt
uniq_by_id-DistinctIds seen (info ∷ infos) = elim (Bool-cases (contains seen (meta_id info.meta))) [
  | inl e ↦ rw e (uniq_by_id-DistinctIds seen infos)
  | inr e ↦ rw e (
    uniq_by_id-apart (meta_id info.meta ∷ seen) (meta_id info.meta) infos
        (ground (arith, (eq_iff (meta_id info.meta) (meta_id info.meta)).1 refl)),
    uniq_by_id-DistinctIds (meta_id info.meta ∷ seen) infos,
  )
]

uniq_by_id-covers :
    (seen : List String) (infos : List DeletableResourceInfo) (info : DeletableResourceInfo)
    → Memᴰ info infos
    → (contains seen (meta_id info.meta) ≡ true)
      ⊎ (any (λ k. meta_id info.meta == meta_id k.meta) (uniq_by_id seen infos) ≡ true)
unfolding uniq_by_id
uniq_by_id-covers seen [] info m = absurd (Memᴰ.not-nil m)
uniq_by_id-covers seen (x ∷ infos) info m = elim (Bool-cases (contains seen (meta_id x.meta))) [
  | inl e ↦
      ⊎_elim
        (λ same. inl (ap (λ (k : DeletableResourceInfo). contains seen (meta_id k.meta)) same ∙ e))
        (λ later. rw e (uniq_by_id-covers seen infos info later)) (Memᴰ.cases_cons m)
  | inr e ↦
      ⊎_elim
        (λ (same : info ≡ x).
          let named : (meta_id info.meta == meta_id x.meta) ≡ true =
            (eq_iff (meta_id info.meta) (meta_id x.meta)).1
              (ap (λ (k : DeletableResourceInfo). meta_id k.meta) same) in
          inr (rw (e, named)))
        (λ later.
          ⊎_elim
            (λ c. elim (Bool-cases (meta_id x.meta == meta_id info.meta)) [
              | inl s ↦
                  let named : (meta_id info.meta == meta_id x.meta) ≡ true =
                    (eq_iff (meta_id info.meta) (meta_id x.meta)).1
                      (sym ((eq_iff (meta_id x.meta) (meta_id info.meta)).0 s)) in
                  inr (rw (e, named))
              | inr s ↦ inl (rw s at c)
            ])
            (λ found. inr (rw e (ground (arith, found))))
            (uniq_by_id-covers (meta_id x.meta ∷ seen) infos info later))
        (Memᴰ.cases_cons m)
]

-- The infos that are left have distinct identifiers, and the identifier of every info of the list is
-- among theirs.
pub deduplicate_deletable_resource_infos-DistinctIds :
    (infos : List DeletableResourceInfo)
    → DistinctIds (deduplicate_deletable_resource_infos infos)
      × ((info : DeletableResourceInfo)
          → Memᴰ info infos
          → any
              (λ k. meta_id info.meta == meta_id k.meta)
              (deduplicate_deletable_resource_infos infos)
            ≡ true)
unfolding deduplicate_deletable_resource_infos
deduplicate_deletable_resource_infos-DistinctIds infos = (
  uniq_by_id-DistinctIds [] infos,
  λ info m. ⊎_elim (λ h. absurd (false≢true h)) (λ h. h) (uniq_by_id-covers [] infos info m),
)
