-- ===== src/Base/Fields.antt =====
-- What the code uses of Go's `strings` and `regexp` on annotations: TrimSpace, Split at commas, and
-- a key pattern that is anchored at both ends and has no operator but the dot.
use Prim.Native.Char.{Char, code}
use Prim.Native.String.{String}
use Prim.Native.Nat.{ℕ}
use mathlib.Core.Path.{◌≡◌, refl}
use mathlib.Core.Bool.{Bool, true, false, ◌&&◌, ◌||◌, not}
use mathlib.Core.List.{List, [], ◌∷◌}
use text.Mathlib.Text.{◌==◌}
use nelm.Base.Tests.{nat_eq, leb, if◌then◌else◌}

-- unicode.IsSpace
is_space : ℕ → Bool
is_space c =
    leb 9 c && leb c 13
    || nat_eq c 32
    || nat_eq c 133
    || nat_eq c 160
    || nat_eq c 5760
    || leb 8192 c && leb c 8202
    || nat_eq c 8232
    || nat_eq c 8233
    || nat_eq c 8239
    || nat_eq c 8287
    || nat_eq c 12288

trim_left : String → String
unfolding is_space
trim_left String.[] = ""
trim_left (String.◌∷◌ c s) =
    let rest = trim_left s in if is_space (code c) then rest else String.◌∷◌ c s

trim_right : String → String
unfolding is_space
trim_right String.[] = ""
trim_right (String.◌∷◌ c s) =
    let rest = trim_right s in if rest == "" && is_space (code c) then "" else String.◌∷◌ c rest

-- strings.TrimSpace
unfoldable pub trim_space : String → String
unfolding trim_left trim_right
trim_space s = trim_right (trim_left s)

onto_first : Char → List String → List String
onto_first c [] = String.◌∷◌ c "" ∷ []
onto_first c (part ∷ parts) = String.◌∷◌ c part ∷ parts

-- strings.Split(s, ",")
unfoldable pub split_commas : String → List String
unfolding onto_first
split_commas String.[] = "" ∷ []
split_commas (String.◌∷◌ c s) =
    let parts = split_commas s in if nat_eq (code c) 44 then "" ∷ parts else onto_first c parts

-- regexp.MustCompile(`^…$`).MatchString: a dot matches any character but a line feed.
unfoldable pub matches_pattern : String → String → Bool
matches_pattern String.[] String.[] = true
matches_pattern String.[] (String.◌∷◌ d s) = false
matches_pattern (String.◌∷◌ c p) String.[] = false
matches_pattern (String.◌∷◌ c p) (String.◌∷◌ d s) =
    (nat_eq (code c) 46 && not (nat_eq (code d) 10) || nat_eq (code c) (code d))
    && matches_pattern p s

fields_test :
    (trim_space " a b\n" ≡ "a b")
    × (split_commas "a,,b" ≡ "a" ∷ "" ∷ "b" ∷ [])
    × (matches_pattern "helm.sh/hook" "helm-sh/hook" ≡ true)
    × (matches_pattern "helm.sh/hook" "helm.sh/hook-weight" ≡ false)
unfolding trim_space split_commas matches_pattern
fields_test = (refl, refl, refl, refl)
