-- ===== src/Common/Order.antt =====
-- What StagesSortHandler (pkg/common/common.go) says of two stages of the list.
use mathlib.Core.List.Memᴰ
use nelm.Base.{
  ℕ, suc, true, false, some, List, [], ◌∷◌, Memᴰ, ◌≡◌, refl, sym, ◌∙◌, ◌==◌, ◌⊎◌, inl, inr, arith,
  eq_iff, Bool-cases,
}
use nelm.Common.{
  Stage, stage_init, stage_install, stage_final, stages_ordered, index_of, index_lt,
  stages_sort_handler,
}
use mathlib.Core.Bool.{false≢true}

-- The first stage stands before the second in the list.
abbrev pub Before : Stage → Stage → List Stage → Type 0
Before a b [] = ⊥
Before a b (x ∷ l) = ((a ≡ x) × Memᴰ b l) ⊎ Before a b l

mem-tail_of_ne : (a x : Stage) (l : List Stage) → (x == a) ≡ false → Memᴰ a (x ∷ l) → Memᴰ a l
mem-tail_of_ne a x l n m = elim (Memᴰ.cases_cons m) [
  | inl e ↦ absurd (false≢true (sym n ∙ (eq_iff x a).1 (sym e)))
  | inr later ↦ later
]

index_of-mem : (a : Stage) (l : List Stage) → Memᴰ a l → (i : ℕ) × (index_of l a ≡ some i)
unfolding index_of
index_of-mem a [] m = absurd (Memᴰ.not-nil m)
index_of-mem a (x ∷ l) m = elim (Bool-cases (x == a)) [
  | inl e ↦ (0, rw e)
  | inr e ↦ let (i, found) = index_of-mem a l (mem-tail_of_ne a x l e m) in (suc i, rw (e, found))
]

index_lt-Before :
    (a b : Stage) (l : List Stage)
    → Memᴰ a l
    → Memᴰ b l
    → index_lt (index_of l a) (index_of l b) ≡ true
    → Before a b l
unfolding index_of index_lt
index_lt-Before a b [] ma mb h = absurd (Memᴰ.not-nil ma)
index_lt-Before a b (x ∷ l) ma mb h = elim (Bool-cases (x == a)) [
  | inl ea ↦ elim (Bool-cases (x == b)) [
    | inl eb ↦ absurd (cc (rw (ea, eb) at h))
    | inr eb ↦ inl (sym ((eq_iff x a).0 ea), mem-tail_of_ne b x l eb mb)
  ]
  | inr ea ↦
      let ma' = mem-tail_of_ne a x l ea ma in
      let (i, fa) = index_of-mem a l ma' in
      elim (Bool-cases (x == b)) [
        | inl eb ↦ absurd (ground (arith, (rw (ea, eb, fa) at h)))
        | inr eb ↦
            let mb' = mem-tail_of_ne b x l eb mb in
            let (j, fb) = index_of-mem b l mb' in
            inr (
              index_lt-Before a b l ma' mb'
                (rw (fa, fb) (ground (arith, (rw (ea, eb, fa, fb) at h)))))
      ]
]

-- Of two stages of the list, the one that sorts first stands first.
pub stages_sort_handler-Before :
    (a b : Stage)
    → Memᴰ a stages_ordered
    → Memᴰ b stages_ordered
    → stages_sort_handler a b ≡ true
    → Before a b stages_ordered
unfolding stages_sort_handler
stages_sort_handler-Before a b ma mb h = index_lt-Before a b stages_ordered ma mb h

-- The stages in which every release begins, installs and ends.
pub init-mem : Memᴰ stage_init stages_ordered
init-mem = Memᴰ.head refl

pub install-mem : Memᴰ stage_install stages_ordered
install-mem = Memᴰ.tail (Memᴰ.tail (Memᴰ.tail (Memᴰ.tail (Memᴰ.tail (Memᴰ.head refl)))))

pub final-mem : Memᴰ stage_final stages_ordered
final-mem = Memᴰ.tail (
    Memᴰ.tail (
      Memᴰ.tail (
        Memᴰ.tail (
          Memᴰ.tail (
            Memᴰ.tail
              (Memᴰ.tail (Memᴰ.tail (Memᴰ.tail (Memᴰ.tail (Memᴰ.tail (Memᴰ.head refl)))))))))))
