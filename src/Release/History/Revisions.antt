-- ===== src/Release/History/Revisions.antt =====
-- What creating, updating and deleting a release do to the lookup by revision
-- (pkg/release/history.go).
use nelm.Base.{
  Option, length, Err, String, ℕ, true, false, Option, none, some, List, [], ◌∷◌, ◌++◌, ◌≡◌, refl,
  sym, subst, inl, inr, ok, wrap_err, if◌then◌else◌, find?, All, nat_eq, arith, >>=-eq-ok,
  ok-injective, some-injective, Bool-cases, Option-cases,
}
use nelm.Release.{HelmRelease}
use nelm.Release.History.{
  create_release, update_release, delete_release, History, stamp, delete_revision, deleted_from,
  find_revision, replace_revision, replaced,
}

-- No release of the list has the revision.
abbrev pub Lacks : ℕ → List HelmRelease → Type 0
Lacks revision rels = All (λ r. nat_eq r.version revision ≡ false) rels

-- No two releases of the list have one revision.
abbrev pub DistinctRevisions : List HelmRelease → Type 0
DistinctRevisions [] = Unit
DistinctRevisions (r ∷ rels) = Lacks r.version rels × DistinctRevisions rels

lookup : ℕ → List HelmRelease → Option HelmRelease
lookup revision rels = find? (λ r. nat_eq r.version revision) rels

nat_eq_refl : (n : ℕ) → nat_eq n n ≡ true
nat_eq_refl n = ground arith

lookup-append :
    (rel : HelmRelease) (rels : List HelmRelease)
    → Lacks rel.version rels
    → lookup rel.version (rels ++ rel ∷ []) ≡ some rel
unfolding lookup
lookup-append rel [] l = rw (nat_eq_refl rel.version)
lookup-append rel (r ∷ rels) l = rw l.0 (lookup-append rel rels l.1)

-- After a release of a new revision was created, the history finds it under its revision, with the
-- times of its creation.
pub create_release-find :
    (now : ℕ) (h h' : History) (rel : HelmRelease)
    → Lacks rel.version h.releases
    → create_release now h rel ≡ ok h'
    → find_revision h' rel.version ≡ some (stamp now rel)
unfolding create_release find_revision lookup
create_release-find now h h' rel l e =
    let (_, _, done) =
      >>=-eq-ok (wrap_err "create release" (h.storage.create (stamp now rel))) _ e in
    subst (λ k. find_revision k rel.version ≡ some (stamp now rel)) (ok-injective done)
      (lookup-append (stamp now rel) h.releases l)

lookup-replace :
    (rel : HelmRelease) (rels rels' : List HelmRelease) (revision : ℕ)
    → replace_revision rel rels ≡ some rels'
    → lookup revision rels'
      ≡ (if nat_eq rel.version revision then some rel else lookup revision rels)
unfolding replace_revision lookup
lookup-replace rel [] rels' revision h = absurd (cc h)
lookup-replace rel (r ∷ rels) rels' revision h = elim (Bool-cases (nat_eq r.version rel.version)) [
  | inl e ↦
      let same : rel ∷ rels ≡ rels' = some-injective (rw e at h) in
      elim (Bool-cases (nat_eq rel.version revision)) [
        | inl f ↦ rw (← same, f)
        | inr f ↦
            let other : nat_eq r.version revision ≡ false = ground (arith, e, f) in
            rw (← same, f, other)
      ]
  | inr e ↦ elim (Option-cases (replace_revision rel rels)) [
    | inl n ↦ absurd (cc (rw (e, n) at h))
    | inr (rest, found) ↦
        let same : r ∷ rest ≡ rels' = some-injective (rw (e, found) at h) in
        let later = lookup-replace rel rels rest revision found in
        elim (Bool-cases (nat_eq r.version revision)) [
          | inl f ↦
              let other : nat_eq rel.version revision ≡ false = ground (arith, e, f) in
              rw (← same, f, other)
          | inr f ↦ rw (← same, f) later
        ]
  ]
]

-- After an update without an error, the history finds the updated release under its revision, and
-- under every other revision what it found before.
pub update_release-find :
    (now : ℕ) (h h' : History) (rel : HelmRelease) (revision : ℕ)
    → update_release now h rel ≡ ok h'
    → find_revision h' revision
      ≡ (if nat_eq rel.version revision then some (stamp now rel) else find_revision h revision)
unfolding update_release find_revision replaced lookup
update_release-find now h h' rel revision e =
    let (_, _, done) =
      >>=-eq-ok (wrap_err "update release" (h.storage.update (stamp now rel))) _ e in
    elim (Option-cases (replace_revision (stamp now rel) h.releases)) [
      | inl n ↦ absurd (cc (rw n at done))
      | inr (rels, found) ↦
          subst
            (λ k. find_revision k revision ≡ (
              if nat_eq rel.version revision
              then some (stamp now rel)
              else find_revision h revision))
            (ok-injective (rw found at done))
            (lookup-replace (stamp now rel) h.releases rels revision found)
    ]

lookup-Lacks :
    (rels : List HelmRelease) (revision : ℕ) → Lacks revision rels → lookup revision rels ≡ none
unfolding lookup
lookup-Lacks [] revision l = refl
lookup-Lacks (r ∷ rels) revision l = rw l.0 (lookup-Lacks rels revision l.1)

lookup-delete :
    (rels : List HelmRelease) (gone revision : ℕ)
    → DistinctRevisions rels
    → lookup revision (delete_revision gone rels)
      ≡ (if nat_eq gone revision then none else lookup revision rels)
unfolding delete_revision lookup
lookup-delete [] gone revision d = ground arith
lookup-delete (r ∷ rels) gone revision d = elim (Bool-cases (nat_eq r.version gone)) [
  | inl e ↦ elim (Bool-cases (nat_eq gone revision)) [
    | inl f ↦
        let same : r.version ≡ revision = ground (arith, e, f) in
        rw (e, f) (lookup-Lacks rels revision (subst (λ n. Lacks n rels) same d.0))
    | inr f ↦
        let other : nat_eq r.version revision ≡ false = ground (arith, e, f) in rw (e, f, other)
  ]
  | inr e ↦
      let later = lookup-delete rels gone revision d.1 in
      elim (Bool-cases (nat_eq r.version revision)) [
        | inl f ↦
            let other : nat_eq gone revision ≡ false = ground (arith, e, f) in rw (e, f, other)
        | inr f ↦ rw (e, f) later
      ]
]

-- After a deletion without an error from a history of distinct revisions, in which the storage
-- returned the release of the revision asked for, the history finds nothing under that revision,
-- and under every other revision what it found before.
pub delete_release-find :
    (h h' : History) (name : String) (gone revision : ℕ)
    → DistinctRevisions h.releases
    → ((rel : HelmRelease) → h.storage.delete name gone ≡ (some rel, none) → rel.version ≡ gone)
    → delete_release h name gone ≡ ok h'
    → find_revision h' revision ≡ (if nat_eq gone revision then none else find_revision h revision)
unfolding delete_release find_revision lookup deleted_from
delete_release-find h h' name gone revision d returns e = go (h.storage.delete name gone) refl e
  where
    Finds : History → Type 0
    Finds k =
        lookup revision k.releases
        ≡ (if nat_eq gone revision then none else lookup revision h.releases)

    go :
        (answer : Option HelmRelease × Option Err)
        → h.storage.delete name gone ≡ answer
        → deleted_from h answer ≡ ok h'
        → Finds h'
    go (some rel, none) at e = subst Finds (ok-injective e) (
        subst
          (λ n.
            lookup revision (delete_revision n h.releases)
            ≡ (if nat_eq gone revision then none else lookup revision h.releases))
          (sym (returns rel at)) (lookup-delete h.releases gone revision d))
    go (some rel, some cause) at e = cc
    go (none, some cause) at e = cc
    go (none, none) at e = elim (Bool-cases (nat_eq (length h.releases) 0)) [
      | inl empty ↦
          subst Finds (ok-injective (rw empty at e)) (nothing h.releases (ground (arith, empty)))
      | inr full ↦ absurd (cc (rw full at e))
    ]
      where
        nothing :
            (rels : List HelmRelease)
            → length rels ≡ 0
            → lookup revision rels ≡ (if nat_eq gone revision then none else lookup revision rels)
        nothing [] n = ground arith
        nothing (r ∷ rels) n = absurd (omega (arith, n))
