-- ===== src/Plan/Execute/Executable.antt =====
-- The edge maps of an execution (pkg/plan/plan_execute.go) without a received operation, and
-- the operations that findExecutableOpsIDs picks.
use mathlib.Core.Logic.{⊎_elim}
use nelm.Base.{
  String, suc, true, List, [], ◌∷◌, Memᴰ, ◌≡◌, refl, ap, sym, ◌∙◌, ◌==◌, ◌⊎◌, inl, inr, contains,
  All, All-map, length, arith, Bool-cases,
}
use nelm.Plan.Execute.{Waiting, remove, forget, find_executable_ops_ids, waits, DistinctKeys}
use nelm.Plan.Execute.Membership.{Blocked, Distinct, text_eq_self}
use mathlib.Core.Bool.{false≢true}

pub forget-waits : (i : String) (ops : Waiting) (j : String) → waits (forget i ops) j ≡ waits ops j
unfolding forget
forget-waits i [] j = refl
forget-waits i ((x, before) ∷ ops) j = rw (forget-waits i ops j) refl

pub forget-length : (i : String) (ops : Waiting) → length (forget i ops) ≡ length ops
unfolding forget
forget-length i [] = refl
forget-length i ((x, before) ∷ ops) = ap suc (forget-length i ops)

pub forget-DistinctKeys :
    (i : String) (ops : Waiting) → DistinctKeys ops → DistinctKeys (forget i ops)
unfolding forget
forget-DistinctKeys i [] d = tt
forget-DistinctKeys i ((x, before) ∷ ops) d =
    (forget-waits i ops x ∙ d.0, forget-DistinctKeys i ops d.1)

pub All-forget {κ κ'} :
    (P : String × List String → Type κ) (Q : String × List String → Type κ') (i : String)
    → ((e : String × List String) → P e → Q (e.0, remove i e.1))
    → (ops : Waiting) → All P ops
    → All Q (forget i ops)
unfolding forget
All-forget P Q i f [] all = tt
All-forget P Q i f ((x, before) ∷ ops) all = (f _ all.0, All-forget P Q i f ops all.1)

-- The executable operations are keys, without repetition.
pub find-waits :
    (ops : Waiting) (i : String)
    → contains (find_executable_ops_ids ops) i ≡ true
    → waits ops i ≡ true
unfolding find_executable_ops_ids
find-waits [] i h = h
find-waits ((x, []) ∷ ops) i h = elim (Bool-cases (x == i)) [
  | inl e ↦ rw e refl
  | inr e ↦ rw e (find-waits ops i (rw e at h))
]
find-waits ((x, _ ∷ _) ∷ ops) i h = let found = find-waits ops i h in ground (arith, found)

pub find-Distinct : (ops : Waiting) → DistinctKeys ops → Distinct (find_executable_ops_ids ops)
unfolding find_executable_ops_ids
find-Distinct [] d = tt
find-Distinct ((x, []) ∷ ops) d = (
  elim (Bool-cases (contains (find_executable_ops_ids ops) x)) [
    | inl e ↦ absurd (false≢true (sym d.0 ∙ find-waits ops x e))
    | inr e ↦ e
  ],
  find-Distinct ops d.1,
)
find-Distinct ((x, _ ∷ _) ∷ ops) d = find-Distinct ops d.1

pub find-ready : (ops : Waiting) → All (λ i. Memᴰ (i, []) ops) (find_executable_ops_ids ops)
unfolding find_executable_ops_ids
find-ready [] = tt
find-ready ((x, []) ∷ ops) =
    (Memᴰ.head refl, All-map (λ i m. Memᴰ.tail m) (find_executable_ops_ids ops) (find-ready ops))
find-ready ((x, _ ∷ _) ∷ ops) =
    All-map (λ i m. Memᴰ.tail m) (find_executable_ops_ids ops) (find-ready ops)

-- What is not executable waits for another operation.
pub find-rest :
    (ops : Waiting)
    → All (λ e. Blocked e.1 ⊎ (contains (find_executable_ops_ids ops) e.0 ≡ true)) ops
unfolding find_executable_ops_ids
find-rest [] = tt
find-rest ((x, []) ∷ ops) = (
  inr (rw (text_eq_self x) refl),
  All-map (λ e. ⊎_elim inl (λ h. inr (ground (arith, h)))) ops (find-rest ops),
)
find-rest ((x, p ∷ _) ∷ ops) = (inl (p, rw (text_eq_self p) refl), find-rest ops)
