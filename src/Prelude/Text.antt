-- ===== src/Prelude/Text.antt =====
-- What the program does with Python's `str`: f-strings, `in`, `or` and `str(n)`.
use Prim.Native.Nat.{ℕ, zero, suc, ◌/◌, ◌%◌}
use Prim.Native.String.{String, ◌++◌}
use mathlib.Core.Bool.{Bool, not}
use mathlib.Core.Option.{Option, none, some}
use mathlib.Core.List.{List, [], ◌∷◌}
use text.Mathlib.Text.{◌==◌, find?}
use full_shelf.Prelude.Tests.{ltb, nat_eq, is_none, if◌then◌else◌}

-- An f-string: its parts in order.
abbrev pub concat : List String → String
concat [] = ""
concat (s ∷ rest) = s ++ concat rest

-- `part in text`
unfoldable pub is_in : String → String → Bool
is_in part text = not (is_none (find? text part))

-- `a or b`: the empty text counts as absent.
abbrev pub or_text : Option String → String → String
or_text none b = b
or_text (some a) b = if a == "" then b else a

digit : ℕ → String
digit d =
    if nat_eq d 0
    then "0"
    else if nat_eq d 1
    then "1"
    else if nat_eq d 2
    then "2"
    else if nat_eq d 3
    then "3"
    else if nat_eq d 4
    then "4"
    else if nat_eq d 5
    then "5"
    else if nat_eq d 6
    then "6"
    else if nat_eq d 7
    then "7"
    else if nat_eq d 8
    then "8"
    else "9"

-- The decimal digits; a number has at most as many as itself, so the fuel suffices.
digits_within : ℕ → ℕ → String
unfolding digit
digits_within zero n = digit n
digits_within (suc fuel) n =
    let rest = digits_within fuel (n / 10) in if ltb n 10 then digit n else rest ++ digit (n % 10)

-- `str(n)`
unfoldable pub str_nat : ℕ → String
unfolding digits_within
str_nat n = digits_within n n
