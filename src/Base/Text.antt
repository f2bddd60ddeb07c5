-- ===== src/Base/Text.antt =====
-- What the code uses of Go's `strings` and of `fmt`'s `%d`.
use Prim.Native.Nat.{ℕ, zero, suc, ◌/◌, ◌%◌}
use Prim.Native.String.{String, ◌++◌}
use mathlib.Core.Path.{◌≡◌, refl}
use nelm.Base.Tests.{nat_eq, ltb, if◌then◌else◌}

-- A Go int: `negsuc n` is -(n + 1).
pub data ℤ : Type 0 where
  pos : ℕ → ℤ
  negsuc : ℕ → ℤ

abbrev digit : ℕ → String
digit n =
    if nat_eq n 0
    then "0"
    else if nat_eq n 1
    then "1"
    else if nat_eq n 2
    then "2"
    else if nat_eq n 3
    then "3"
    else if nat_eq n 4
    then "4"
    else if nat_eq n 5
    then "5"
    else if nat_eq n 6
    then "6"
    else if nat_eq n 7
    then "7"
    else if nat_eq n 8
    then "8"
    else "9"

-- A number has at most as many decimal digits as its value, so the fuel does not run out.
decimal_from : ℕ → ℕ → String → String
decimal_from zero n out = out
decimal_from (suc f) n out =
    let rest = decimal_from f (n / 10) (digit (n % 10) ++ out) in
    if ltb n 10 then digit n ++ out else rest

unfoldable pub decimal : ℕ → String
unfolding decimal_from
decimal n = decimal_from (suc n) n ""

unfoldable pub decimal_int : ℤ → String
unfolding decimal
decimal_int (pos n) = decimal n
decimal_int (negsuc n) = "-" ++ decimal (suc n)

decimal_test : (decimal 1207 ≡ "1207") × (decimal_int (negsuc 4) ≡ "-5") × (decimal 0 ≡ "0")
unfolding decimal_int
decimal_test = (refl, refl, refl)
