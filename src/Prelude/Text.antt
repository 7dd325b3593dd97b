-- ===== src/Prelude/Text.antt =====
-- The forms of `fmt.Sprintf` that the program uses for numbers and bytes: %d, %X, %04X.
use Prim.Native.Nat.{ℕ, zero, suc, ◌-◌, ◌/◌, ◌%◌}
use Prim.Native.String.{String, ◌++◌}
use mathlib.Core.List.{List, [], ◌∷◌}
use otelcol_receiver_canopen.Prelude.Tests.{ltb, if◌then◌else◌}
use otelcol_receiver_canopen.Prelude.Lists.{get_or}

-- Joining two strings.
infixr 65 ◌<>◌
abbrev pub ◌<>◌ : String → String → String
s <> t = s ++ t

abbrev digit_names : List String
digit_names =
    "0" ∷ "1" ∷ "2" ∷ "3" ∷ "4" ∷ "5" ∷ "6" ∷ "7" ∷ "8" ∷ "9" ∷ "A" ∷ "B" ∷ "C" ∷ "D" ∷ "E" ∷ "F"
    ∷ []

digit : ℕ → String
digit d = get_or digit_names d ""

-- The digits of a number to a base, at least `width` of them; `fuel` bounds their number.
positional : ℕ → ℕ → ℕ → ℕ → String → String
unfolding digit
positional base zero width n rest = rest
positional base (suc fuel) width n rest =
    let rest' = digit (n % base) ++ rest in
    let more = positional base fuel (width - 1) (n / base) rest' in
    if ltb n base then (if ltb width 2 then rest' else more) else more

-- A number of the program has at most 20 digits.
unfoldable pub decimal : ℕ → String
unfolding positional
decimal n = positional 10 20 1 n ""

unfoldable pub hex : ℕ → ℕ → String
unfolding positional
hex width n = positional 16 20 width n ""

unfoldable pub hex_upper : List ℕ → String
unfolding hex
hex_upper [] = ""
hex_upper (b ∷ bs) = hex 2 b ++ hex_upper bs
