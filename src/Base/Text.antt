-- ===== src/Base/Text.antt =====
-- Texts as bytes, and numbers as texts.
use Prim.Native.Char.{code}
use Prim.Native.String.{String}
use Prim.Native.Nat.{ℕ, zero, suc, ◌+◌, ◌/◌, ◌%◌}
use mathlib.Core.List.{List, [], ◌∷◌}
use regiboard.Base.Tests.{ltb, if◌then◌else◌}

abbrev pub Text : Type 0
Text = List ℕ

-- The bytes of a text of ASCII characters.
abbrev pub codes : String → Text
codes String.[] = []
codes (String.◌∷◌ c s) = code c ∷ codes s

-- A digit, with letters from `letter` on.
abbrev pub digit : ℕ → ℕ → ℕ
digit letter d = if ltb d 10 then b'0' + d else letter + d % 10

-- The digits of a number in front of a text.
abbrev pub print_loop : ℕ → ℕ → ℕ → ℕ → Text → Text
print_loop zero base letter n acc = acc
print_loop (suc k) base letter n acc =
    let acc' = digit letter (n % base) ∷ acc in
    if ltb n base then acc' else print_loop k base letter (n / base) acc'

-- A number below 2^64 in decimal digits.
abbrev pub decimal : ℕ → Text
decimal n = print_loop 20 10 b'a' n []

-- The same in hexadecimal digits with small letters.
abbrev pub hex : ℕ → Text
hex n = print_loop 16 16 b'a' n []

-- At least two hexadecimal digits with capital letters.
abbrev pub hex_pair : ℕ → Text
hex_pair n = if ltb n 16 then b'0' ∷ digit b'A' n ∷ [] else print_loop 16 16 b'A' n []
