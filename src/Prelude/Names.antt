-- ===== src/Prelude/Names.antt =====
-- Python's `str.isidentifier` on ASCII texts, `str(n)` of a natural number, and sets of strings.
use Prim.Native.Char.{code}
use Prim.Native.Nat.{ℕ, zero, suc, ◌/◌, ◌%◌}
use Prim.Native.String.{String, [], ◌∷◌, ◌++◌}
use mathlib.Core.Bool.{Bool, true, false, ◌&&◌, ◌||◌}
use mathlib.Core.List.{List}
use mathlib.Core.Path.{◌≡◌, refl}
use native.Mathlib.Omega.{arith}
use text.Mathlib.TextEquality.{eq_iff}
use jina.Prelude.Tests.{leb, ◌==◌, if◌then◌else◌}
use jina.Prelude.Dict.{contains}

is_start : ℕ → Bool
is_start c = (leb b'a' c && leb c b'z') || (leb b'A' c && leb c b'Z') || c == b'_'

is_continue : ℕ → Bool
unfolding is_start
is_continue c = is_start c || (leb b'0' c && leb c b'9')

all_continue : String → Bool
unfolding is_continue
all_continue [] = true
all_continue (c ∷ s) = is_continue (code c) && all_continue s

-- `s.isidentifier()`
unfoldable pub is_identifier : String → Bool
unfolding is_start all_continue
is_identifier [] = false
is_identifier (c ∷ s) = is_start (code c) && all_continue s

digit : ℕ → String
digit d =
    if d == 0
    then "0"
    else if d == 1
    then "1"
    else if d == 2
    then "2"
    else if d == 3
    then "3"
    else if d == 4
    then "4"
    else if d == 5
    then "5"
    else if d == 6
    then "6"
    else if d == 7
    then "7"
    else if d == 8
    then "8"
    else "9"

decimal_fuel : ℕ → ℕ → String
unfolding digit
decimal_fuel zero n = ""
decimal_fuel (suc f) n =
    let rest = decimal_fuel f (n / 10) in if leb n 9 then digit n else rest ++ digit (n % 10)

-- `str(n)`; the fuel `n + 1` is more than the digits of `n`.
unfoldable pub decimal : ℕ → String
unfolding decimal_fuel
decimal n = decimal_fuel (suc n) n

-- `set(xs)`, as a list without repetitions. The order of a Python set is not specified.
unfoldable pub to_set : List String → List String
to_set List.[] = List.[]
to_set (List.◌∷◌ x xs) = let rest = to_set xs in if contains rest x then rest else List.◌∷◌ x rest

pub contains-to_set : (xs : List String) (k : String) → contains (to_set xs) k ≡ contains xs k
unfolding to_set
contains-to_set List.[] k = refl
contains-to_set (List.◌∷◌ x xs) k =
    ground (arith, contains-to_set xs x, contains-to_set xs k, eq_iff x k)

decimal_test : decimal 1205 ≡ "1205"
unfolding decimal
decimal_test = refl

is_identifier_test : (is_identifier "pod_1" ≡ true) × (is_identifier "1pod" ≡ false)
unfolding is_identifier
is_identifier_test = (refl, refl)
