-- ===== src/Release/History.antt =====
-- pkg/release/history.go: the history of a release, over a storage (pkg/helm) whose answers are
-- parameters. The lock is held for the whole of each operation, so operations follow one another.
pub mod Deployed
pub mod Revisions
use nelm.Base.{
  String, ℕ, zero, suc, ◌-◌, Bool, true, false, Option, none, some, List, [], ◌∷◌, ◌++◌, not,
  Result, ok, err, panic, Err, message, wrap, wrap_err, ◌>>=◌, if◌then◌else◌, find?, filter_by,
  length, nat_eq,
}
use nelm.Release.{Status, deployed, uninstalled, superseded, uninstalling, HelmRelease}

-- What the history asks of ReleaseStorager: whether each call succeeds, and what Delete returns, a
-- release and an error of which each may be nil.
pub record Storage : Type 0 where
  pub create : HelmRelease → Result (Unit {0})
  pub update : HelmRelease → Result (Unit {0})
  pub delete : String → ℕ → Option HelmRelease × Option Err

-- The releases in the order of their revisions, which NewHistory sorts them by.
pub record History : Type 0 where
  pub release_name : String
  pub releases : List HelmRelease
  pub storage : Storage

-- `rel.Info.FirstDeployed = helmtime.Now(); rel.Info.LastDeployed = rel.Info.FirstDeployed`
abbrev pub stamp : ℕ → HelmRelease → HelmRelease
stamp now rel = record rel { first_deployed = now; last_deployed = now }

unfoldable pub create_release : ℕ → History → HelmRelease → Result History
create_release now h rel = do
  _ ← wrap_err "create release" (h.storage.create (stamp now rel))
  ok (record h { releases = h.releases ++ stamp now rel ∷ [] })

-- slices.Delete at the first index that lo.FindIndexOf finds, or nothing.
delete_revision : ℕ → List HelmRelease → List HelmRelease
delete_revision revision [] = []
delete_revision revision (r ∷ rels) =
    let rest = delete_revision revision rels in if nat_eq r.version revision then rels else r ∷ rest

-- Where the storage fails, the message reads the release that Delete returned beside the error. The
-- code finds the release to drop by the revision of what the storage returned, which it reads for
-- each release of the history.
deleted_from : History → Option HelmRelease × Option Err → Result History
unfolding delete_revision
deleted_from h (some rel, none) =
    ok (record h { releases = delete_revision rel.version h.releases })
deleted_from h (some rel, some e) = err (wrap "uninstall release" e)
deleted_from h (none, some e) = panic
deleted_from h (none, none) = if nat_eq (length h.releases) 0 then ok h else panic

unfoldable pub delete_release : History → String → ℕ → Result History
unfolding deleted_from
delete_release h name revision = deleted_from h (h.storage.delete name revision)

unfoldable pub is_uninstalled : Status → Bool
is_uninstalled uninstalled = true
is_uninstalled uninstalling = true
is_uninstalled _ = false

unfoldable pub was_deployed : Status → Bool
was_deployed deployed = true
was_deployed superseded = true
was_deployed _ = false

-- lo.FindLastIndexOf
unfoldable pub find_last_index : (HelmRelease → Bool) → List HelmRelease → Option ℕ
find_last_index p [] = none
find_last_index p (r ∷ rels) = elim (find_last_index p rels) [
  | some i ↦ some (suc i)
  | none ↦ if p r then some 0 else none
]

-- The slice rels[n:].
abbrev pub drop : ℕ → List HelmRelease → List HelmRelease
drop zero rels = rels
drop (suc n) [] = []
drop (suc n) (r ∷ rels) = drop n rels

unfoldable pub find_all_deployed : History → List HelmRelease
unfolding find_last_index is_uninstalled was_deployed
find_all_deployed h = elim (find_last_index (λ r. is_uninstalled r.status) h.releases) [
  | some i ↦
      if nat_eq i (length h.releases - 1)
      then []
      else filter_by (λ r. was_deployed r.status) (drop (suc i) h.releases)
  | none ↦ filter_by (λ r. was_deployed r.status) h.releases
]

unfoldable pub find_revision : History → ℕ → Option HelmRelease
find_revision h revision = find? (λ r. nat_eq r.version revision) h.releases

-- The list with the release in place of the first one of its revision, if there is one.
replace_revision : HelmRelease → List HelmRelease → Option (List HelmRelease)
replace_revision rel [] = none
replace_revision rel (r ∷ rels) =
    let rest = replace_revision rel rels in
    if nat_eq r.version rel.version
    then some (rel ∷ rels)
    else elim rest [ none ↦ none | some rels' ↦ some (r ∷ rels') ]

replaced : History → Option (List HelmRelease) → Result History
replaced h none = err (message "release not found in history")
replaced h (some rels) = ok (record h { releases = rels })

unfoldable pub update_release : ℕ → History → HelmRelease → Result History
unfolding replace_revision replaced
update_release now h rel = do
  _ ← wrap_err "update release" (h.storage.update (stamp now rel))
  replaced h (replace_revision (stamp now rel) h.releases)
