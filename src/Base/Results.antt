-- ===== src/Base/Results.antt =====
-- Go results: a value, a returned error, or a panic. An error is a text, perhaps wrapped round
-- another (`fmt.Errorf` with `%w`), or one of the sentinel values of the graph library.
use Prim.Native.String.{String}
use mathlib.Core.Path.{◌≡◌, refl}
use mathlib.Core.Option.{some}

-- The sentinel errors of github.com/dominikbraun/graph that the code names or meets.
pub data GraphErr : Type 0 where
  vertex_not_found vertex_already_exists edge_already_exists edge_creates_cycle : GraphErr

pub data Err : Type 0 where
  graph : GraphErr → Err
  message : String → Err
  wrap : String → Err → Err

pub data Result {ℓ} (A : Type ℓ) : Type ℓ where
  ok : A → Result A
  err : Err → Result A
  panic : Result A

infixl 5 ◌>>=◌
abbrev pub ◌>>=◌ {ℓ κ} :
    {Before : Type ℓ} {After : Type κ} (m : Result Before) (rest : Before → Result After)
    → Result After
panic >>= rest = panic
err failure >>= rest = err failure
ok value >>= rest = rest value

-- `if err != nil { return fmt.Errorf("…: %w", err) }`
abbrev pub wrap_err {ℓ} : {A : Type ℓ} → String → Result A → Result A
wrap_err s (ok a) = ok a
wrap_err s (err e) = err (wrap s e)
wrap_err s panic = panic

-- lo.Must and lo.Must0 on an error
abbrev pub must {ℓ} : {A : Type ℓ} → Result A → Result A
must (ok a) = ok a
must (err e) = panic
must panic = panic

-- A sequence that succeeds has a first part that succeeds.
pub >>=-eq-ok {ℓ κ} :
    {Before : Type ℓ} {After : Type κ} (m : Result Before) (rest : Before → Result After)
    {result : After}
    → (m >>= rest) ≡ ok result
    → (value : Before) × (m ≡ ok value) × (rest value ≡ ok result)
>>=-eq-ok panic rest done = cc
>>=-eq-ok (err failure) rest done = cc
>>=-eq-ok (ok value) rest done = (value, refl, done)

pub wrap_err-eq-ok {ℓ} :
    {A : Type ℓ} (s : String) (m : Result A) {a : A} → wrap_err s m ≡ ok a → m ≡ ok a
wrap_err-eq-ok s (ok a) h = h
wrap_err-eq-ok s (err e) h = cc
wrap_err-eq-ok s panic h = cc

pub must-eq-ok {ℓ} : {A : Type ℓ} (m : Result A) {a : A} → must m ≡ ok a → m ≡ ok a
must-eq-ok (ok a) h = h
must-eq-ok (err e) h = cc
must-eq-ok panic h = cc

pub ok-injective {ℓ} : {A : Type ℓ} {a b : A} → ok a ≡ ok b → a ≡ b
ok-injective h = cc

pub some-injective {ℓ} : {A : Type ℓ} {a b : A} → some a ≡ some b → a ≡ b
some-injective h = cc
