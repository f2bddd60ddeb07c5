-- ===== src/Plan/Execute/Membership.antt =====
-- Membership in the lists and the maps of an execution (pkg/plan/plan_execute.go).
use mathlib.Core.List.Memᴰ
-- An operation that still waits for another.
use nelm.Base.{
  String, suc, ◌≤◌, ◌<◌, true, false, List, [], ◌∷◌, ◌++◌, Memᴰ, ◌≡◌, refl, ap, sym, ◌∙◌, subst,
  ◌==◌, ◌&&◌, ◌||◌, not, inl, inr, contains, All, length, arith, eq_iff, Bool-cases,
}
use nelm.Plan.Execute.{Waiting, remove, unschedule, waits, DistinctKeys}
use mathlib.Core.Bool.{false≢true}

abbrev pub Blocked : List String → Type 0
Blocked before = (p : String) × (contains before p ≡ true)

abbrev pub Distinct : List String → Type 0
Distinct [] = Unit
Distinct (i ∷ l) = (contains l i ≡ false) × Distinct l

pub text_eq_self : (i : String) → (i == i) ≡ true
text_eq_self i = (eq_iff i i).1 refl

pub text_ne_sym : (i j : String) → (i == j) ≡ false → (j == i) ≡ false
text_ne_sym i j h = elim (Bool-cases (j == i)) [
  | inl e ↦ absurd (false≢true (sym h ∙ (eq_iff i j).1 (sym ((eq_iff j i).0 e))))
  | inr e ↦ e
]

-- Two texts that a third one tells apart.
pub text_ne : (x i j : String) → (x == i) ≡ true → (x == j) ≡ false → (i == j) ≡ false
text_ne x i j e h = subst (λ y. (y == j) ≡ false) ((eq_iff x i).0 e) h

pub contains-append :
    (l : List String) (i j : String) → contains (l ++ i ∷ []) j ≡ (contains l j || i == j)
contains-append [] i j = ground (arith)
contains-append (x ∷ l) i j = let rest = contains-append l i j in ground (arith, rest)

pub length-append : (l : List String) (i : String) → length (l ++ i ∷ []) ≡ suc (length l)
length-append [] i = refl
length-append (x ∷ l) i = ap suc (length-append l i)

pub remove-contains :
    (i : String) (l : List String) (j : String)
    → contains (remove i l) j ≡ (contains l j && not (i == j))
unfolding remove
remove-contains i [] j = refl
remove-contains i (x ∷ l) j = elim (Bool-cases (x == i)) [
  | inl e ↦ elim (Bool-cases (i == j)) [
    | inl f ↦ rw (e, remove-contains i l j, f) ground (arith)
    | inr f ↦
        let other = text_ne i x j ((eq_iff i x).1 (sym ((eq_iff x i).0 e))) f in
        rw (e, remove-contains i l j, f, other) refl
  ]
  | inr e ↦ elim (Bool-cases (x == j)) [
    | inl f ↦ let other = text_ne_sym j i (text_ne x j i f e) in rw (e, f, other) refl
    | inr f ↦ rw (e, f, remove-contains i l j) refl
  ]
]

pub remove-other :
    (i : String) (l : List String) (j : String)
    → contains (remove i l) j ≡ true
    → ((i == j) ≡ false) × (contains l j ≡ true)
remove-other i l j h = elim (Bool-cases (i == j)) [
  | inl e ↦ let none_left = rw (remove-contains i l j, e) at h in absurd (ground (arith, none_left))
  | inr e ↦ let kept = rw (remove-contains i l j, e) at h in (e, ground (arith, kept))
]

pub remove-keeps :
    (i : String) (l : List String) (j : String)
    → (i == j) ≡ false
    → contains l j ≡ true
    → contains (remove i l) j ≡ true
remove-keeps i l j e h = rw (remove-contains i l j, e, h) refl

pub remove-length-le : (i : String) (l : List String) → length (remove i l) ≤ length l
unfolding remove
remove-length-le i [] = ground (arith)
remove-length-le i (x ∷ l) =
    let rest = remove-length-le i l in
    elim (Bool-cases (x == i)) [ inl e ↦ rw e (ground (arith)) | inr e ↦ rw e (ground (arith)) ]

pub remove-length :
    (i : String) (l : List String) → contains l i ≡ true → length (remove i l) < length l
unfolding remove
remove-length i [] h = absurd (false≢true h)
remove-length i (x ∷ l) h = elim (Bool-cases (x == i)) [
  | inl e ↦ let rest = remove-length-le i l in rw e (ground (arith))
  | inr e ↦ let rest = remove-length i l (rw e at h) in rw e (ground (arith))
]

pub waits-unschedule :
    (i : String) (ops : Waiting) (j : String)
    → waits (unschedule i ops) j ≡ (waits ops j && not (i == j))
unfolding unschedule
waits-unschedule i [] j = refl
waits-unschedule i ((x, before) ∷ ops) j = elim (Bool-cases (x == i)) [
  | inl e ↦ elim (Bool-cases (i == j)) [
    | inl f ↦ rw (e, waits-unschedule i ops j, f) ground (arith)
    | inr f ↦
        let other = text_ne i x j ((eq_iff i x).1 (sym ((eq_iff x i).0 e))) f in
        rw (e, waits-unschedule i ops j, f, other) refl
  ]
  | inr e ↦ elim (Bool-cases (x == j)) [
    | inl f ↦ let other = text_ne_sym j i (text_ne x j i f e) in rw (e, f, other) refl
    | inr f ↦ rw (e, f, waits-unschedule i ops j) refl
  ]
]

unschedule-length-le : (i : String) (ops : Waiting) → length (unschedule i ops) ≤ length ops
unfolding unschedule
unschedule-length-le i [] = ground (arith)
unschedule-length-le i ((x, before) ∷ ops) =
    let rest = unschedule-length-le i ops in
    elim (Bool-cases (x == i)) [ inl e ↦ rw e (ground (arith)) | inr e ↦ rw e (ground (arith)) ]

pub unschedule-length :
    (i : String) (ops : Waiting) → waits ops i ≡ true → length (unschedule i ops) < length ops
unfolding unschedule
unschedule-length i [] h = absurd (false≢true h)
unschedule-length i ((x, before) ∷ ops) h = elim (Bool-cases (x == i)) [
  | inl e ↦ let rest = unschedule-length-le i ops in rw e (ground (arith))
  | inr e ↦ let rest = unschedule-length i ops (rw e at h) in rw e (ground (arith))
]

pub All-unschedule {κ} :
    (P : String × List String → Type κ) (i : String) (ops : Waiting)
    → All P ops
    → All (λ e. P e × ((e.0 == i) ≡ false)) (unschedule i ops)
unfolding unschedule
All-unschedule P i [] all = tt
All-unschedule P i ((x, before) ∷ ops) all = elim (Bool-cases (x == i)) [
  | inl e ↦ rw e (All-unschedule P i ops all.1)
  | inr e ↦ rw e ((all.0, e), All-unschedule P i ops all.1)
]

pub unschedule-DistinctKeys :
    (i : String) (ops : Waiting) → DistinctKeys ops → DistinctKeys (unschedule i ops)
unfolding unschedule
unschedule-DistinctKeys i [] d = tt
unschedule-DistinctKeys i ((x, before) ∷ ops) d = elim (Bool-cases (x == i)) [
  | inl e ↦ rw e (unschedule-DistinctKeys i ops d.1)
  | inr e ↦ rw e (rw (waits-unschedule i ops x, d.0) refl, unschedule-DistinctKeys i ops d.1)
]

pub unschedule-mem :
    (i : String) (ops : Waiting) (e : String × List String)
    → Memᴰ e ops
    → (e.0 == i) ≡ false
    → Memᴰ e (unschedule i ops)
unfolding unschedule
unschedule-mem i [] e m apart = absurd (Memᴰ.not-nil m)
unschedule-mem i ((x, before) ∷ ops) e m apart = elim (Memᴰ.cases_cons m) [
  | inl same ↦
      let kept : (x == i) ≡ false = subst (λ f. (f.0 == i) ≡ false) same apart in
      rw kept (Memᴰ.head same)
  | inr rest ↦ elim (Bool-cases (x == i)) [
    | inl f ↦ rw f (unschedule-mem i ops e rest apart)
    | inr f ↦ rw f (Memᴰ.tail (unschedule-mem i ops e rest apart))
  ]
]

pub mem-waits : (ops : Waiting) (e : String × List String) → Memᴰ e ops → waits ops e.0 ≡ true
mem-waits [] e m = absurd (Memᴰ.not-nil m)
mem-waits ((x, before) ∷ ops) e m = elim (Memᴰ.cases_cons m) [
  | inl same ↦
      let same_id : (x == e.0) ≡ true = (eq_iff x e.0).1 (sym (ap (λ f. f.0) same)) in
      rw same_id refl
  | inr rest ↦ let found = mem-waits ops e rest in ground (arith, found)
]

pub waits-mem :
    (ops : Waiting) (i : String)
    → waits ops i ≡ true
    → (before : List String) × Memᴰ (i, before) ops
waits-mem [] i h = absurd (false≢true h)
waits-mem ((x, before) ∷ ops) i h = elim (Bool-cases (x == i)) [
  | inl e ↦ (before, Memᴰ.head (ap (λ k. (k, before)) (sym ((eq_iff x i).0 e))))
  | inr e ↦ let (found, m) = waits-mem ops i (rw e at h) in (found, Memᴰ.tail m)
]
