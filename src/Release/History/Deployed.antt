-- ===== src/Release/History/Deployed.antt =====
-- FindAllDeployed (pkg/release/history.go) against a description that uses no index.
use nelm.Base.{
  ℕ, zero, suc, ◌-◌, ◌≤◌, Bool, true, false, Option, none, some, List, [], ◌∷◌, ◌≡◌, refl, ap, sym,
  ◌∙◌, inl, inr, if◌then◌else◌, filter_by, any, length, nat_eq, arith, Bool-cases, Option-cases,
}
use nelm.Release.{HelmRelease}
use nelm.Release.History.{
  History, is_uninstalled, was_deployed, find_last_index, drop, find_all_deployed,
}

-- What follows the last release that p holds of, or everything if p holds of none.
abbrev pub since : (HelmRelease → Bool) → List HelmRelease → List HelmRelease
since p [] = []
since p (r ∷ rels) =
    let rest = since p rels in if any p rels then rest else if p r then rels else r ∷ rels

after : List HelmRelease → Option ℕ → List HelmRelease
after rels none = rels
after rels (some i) = drop (suc i) rels

find_last_index-none :
    (p : HelmRelease → Bool) (rels : List HelmRelease)
    → find_last_index p rels ≡ none
    → any p rels ≡ false
unfolding find_last_index
find_last_index-none p [] h = refl
find_last_index-none p (r ∷ rels) h = elim (Option-cases (find_last_index p rels)) [
  | inl e ↦ elim (Bool-cases (p r)) [
    | inl f ↦ absurd (cc (rw (e, f) at h))
    | inr f ↦ rw (f, find_last_index-none p rels e)
  ]
  | inr (i, e) ↦ absurd (cc (rw e at h))
]

find_last_index-some :
    (p : HelmRelease → Bool) (rels : List HelmRelease) (i : ℕ)
    → find_last_index p rels ≡ some i
    → any p rels ≡ true
unfolding find_last_index
find_last_index-some p [] i h = absurd (cc h)
find_last_index-some p (r ∷ rels) i h = elim (Option-cases (find_last_index p rels)) [
  | inl e ↦ elim (Bool-cases (p r)) [ inl f ↦ rw f | inr f ↦ absurd (cc (rw (e, f) at h)) ]
  | inr (j, e) ↦ let found = find_last_index-some p rels j e in ground (arith, found)
]

after-since :
    (p : HelmRelease → Bool) (rels : List HelmRelease)
    → after rels (find_last_index p rels) ≡ since p rels
unfolding find_last_index after
after-since p [] = refl
after-since p (r ∷ rels) = elim (Option-cases (find_last_index p rels)) [
  | inl e ↦ elim (Bool-cases (p r)) [
    | inl f ↦ rw (e, f, find_last_index-none p rels e)
    | inr f ↦ rw (e, f, find_last_index-none p rels e)
  ]
  | inr (i, e) ↦
      rw (e, find_last_index-some p rels i e) (ap (after rels) (sym e) ∙ after-since p rels)
]

drop-all : (n : ℕ) (rels : List HelmRelease) → length rels ≤ n → drop n rels ≡ []
drop-all zero [] h = refl
drop-all zero (r ∷ rels) h = absurd (omega arith)
drop-all (suc n) [] h = refl
drop-all (suc n) (r ∷ rels) h = drop-all n rels (omega arith)

-- FindAllDeployed returns, in order, the releases with status deployed or superseded among those that
-- follow the last uninstalled or uninstalling one, or among all of them if there is none.
pub find_all_deployed-since :
    (h : History)
    → find_all_deployed h
      ≡ filter_by (λ r. was_deployed r.status) (since (λ r. is_uninstalled r.status) h.releases)
unfolding find_all_deployed after
find_all_deployed-since h =
    elim (Option-cases (find_last_index (λ r. is_uninstalled r.status) h.releases)) [
      | inl e ↦
          rw (find_all_deployed, e)
            (ap (filter_by (λ r. was_deployed r.status))
              (ap (after h.releases) (sym e) ∙ after-since _ h.releases))
      | inr (i, e) ↦
          let same : drop (suc i) h.releases ≡ since (λ r. is_uninstalled r.status) h.releases =
            ap (after h.releases) (sym e) ∙ after-since _ h.releases in
          elim (Bool-cases (nat_eq i (length h.releases - 1))) [
            | inl f ↦
                rw (find_all_deployed, e, f)
                  (ap (filter_by (λ r. was_deployed r.status))
                    (sym (drop-all (suc i) h.releases (ground (arith, f))) ∙ same))
            | inr f ↦
                rw (find_all_deployed, e, f) (ap (filter_by (λ r. was_deployed r.status)) same)
          ]
    ]
