-- ===== src/Base/Lists.antt =====
-- Lists under native numbers and Boolean tests (the calls of `lo` and of `slices`).
use Prim.Native.Nat.{ℕ, suc}
use Prim.Native.String.{String}
use mathlib.Core.Bool.{Bool, true, false, ◌||◌, false≢true}
use mathlib.Core.Option.{Option, none, some}
use mathlib.Core.Path.{◌≡◌, sym, subst}
use mathlib.Core.Logic.{⊎_elim, inl, inr}
use mathlib.Core.List.{List, [], ◌∷◌, Memᴰ}
use mathlib.Core.List.Memᴰ
use text.Mathlib.Text.{◌==◌}
use text.Mathlib.TextEquality.{eq_iff}
use nelm.Base.Tests.{if◌then◌else◌, Bool-cases}

module _ {ℓ} {A : Type ℓ} where
  abbrev pub length : List A → ℕ
  length [] = 0
  length (_ ∷ xs) = suc (length xs)

  -- lo.Find
  abbrev pub find? : (A → Bool) → List A → Option A
  find? p [] = none
  find? p (x ∷ xs) = if p x then some x else find? p xs

  -- lo.Filter
  abbrev pub filter_by : (A → Bool) → List A → List A
  filter_by p [] = []
  filter_by p (x ∷ xs) = let rest = filter_by p xs in if p x then x ∷ rest else rest

  -- lo.SomeBy
  abbrev pub any : (A → Bool) → List A → Bool
  any p [] = false
  any p (x ∷ xs) = p x || any p xs

  -- A statement about every element, by recursion.
  abbrev pub All {κ} : (A → Type κ) → List A → Type κ
  All P [] = Unit
  All P (x ∷ xs) = P x × All P xs

-- lo.Contains
abbrev pub contains : List String → String → Bool
contains [] s = false
contains (x ∷ xs) s = x == s || contains xs s

pub All-map {ℓ κ κ'} :
    {A : Type ℓ} {P : A → Type κ} {Q : A → Type κ'}
    → ((x : A) → P x → Q x)
    → (xs : List A) → All P xs
    → All Q xs
All-map f [] all = tt
All-map f (x ∷ xs) all = (f x all.0, All-map f xs all.1)

pub All-at {ℓ κ} : {A : Type ℓ} (P : A → Type κ) (x : A) (xs : List A) → Memᴰ x xs → All P xs → P x
All-at P x [] m all = absurd (Memᴰ.not-nil m)
All-at P x (y ∷ ys) m all =
    ⊎_elim (λ same. subst P (sym same) all.0) (λ later. All-at P x ys later all.1)
      (Memᴰ.cases_cons m)

pub contains-mem : (l : List String) (s : String) → contains l s ≡ true → Memᴰ s l
contains-mem [] s h = absurd (false≢true h)
contains-mem (x ∷ l) s h = elim (Bool-cases (x == s)) [
  | inl e ↦ Memᴰ.head (sym ((eq_iff x s).0 e))
  | inr e ↦ Memᴰ.tail (contains-mem l s (rw e at h))
]
