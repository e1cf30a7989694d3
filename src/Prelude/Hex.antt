-- ===== src/Prelude/Hex.antt =====
-- `hex.EncodeToString` and `%x` of bytes.
use Prim.Native.Nat.{ℕ, ◌/◌, ◌%◌}
use Prim.Native.String.{String, ◌++◌}
use mathlib.Core.List.{List, [], ◌∷◌}
use logs_tracker.Prelude.Tests.{◌==◌, ltb, if◌then◌else◌}
use logs_tracker.Prelude.Decimal.{decimal}

hex_digit : ℕ → String
hex_digit n =
    if ltb n 10
    then decimal n
    else if n == 10
    then "a"
    else if n == 11
    then "b"
    else if n == 12
    then "c"
    else if n == 13
    then "d"
    else if n == 14
    then "e"
    else "f"

unfoldable pub hex_encode : List ℕ → String
unfolding hex_digit decimal
hex_encode [] = ""
hex_encode (b ∷ bs) = hex_digit (b / 16) ++ (hex_digit (b % 16) ++ hex_encode bs)
