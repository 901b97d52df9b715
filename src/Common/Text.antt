-- ===== src/Common/Text.antt =====
-- JavaScript strings: UTF-16 code units, trim() and the decimal form of a number. A String here
-- holds whole characters, so a lone surrogate has no counterpart.
use Prim.Native.Nat.{ℕ, zero, suc, ◌+◌, ◌-◌, ◌/◌, ◌%◌}
use Prim.Native.Char.{Char, code}
use Prim.Native.String
use Prim.Native.String.{String}
use mathlib.Core.Bool.{Bool, ◌&&◌, ◌||◌}
use mathlib.Core.List.{List, [], ◌∷◌, ◌++◌}
use text.Mathlib.Text.{◌==◌}
use test_specs_to_code.Common.Tests.{ltb, leb, length, if◌then◌else◌}

-- The code units of a character: one, or a pair of surrogates.
unfoldable pub code_units : Char → List ℕ
code_units c =
    let n = code c in
    if ltb n 0x10000
    then n ∷ []
    else (0xd800 + (n - 0x10000) / 0x400) ∷ (0xdc00 + (n - 0x10000) % 0x400) ∷ []

unfoldable pub units : String → List ℕ
unfolding code_units
units String.[] = []
units (String.◌∷◌ c s) = code_units c ++ units s

-- `s.length`
unfoldable pub length_of : String → ℕ
unfolding units
length_of s = length (units s)

unfoldable pub has_unit : (ℕ → Bool) → List ℕ → Bool
has_unit p [] = Bool.false
has_unit p (u ∷ us) = p u || has_unit p us

-- `/[class]/.test(s)` for a class of single code units
unfoldable pub has_class : (ℕ → Bool) → String → Bool
unfolding has_unit units
has_class p s = has_unit p (units s)

abbrev pub is_between : ℕ → ℕ → ℕ → Bool
is_between lo hi n = leb lo n && leb n hi

abbrev pub is_unit : ℕ → ℕ → Bool
is_unit a n = is_between a a n

-- WhiteSpace and LineTerminator of ECMAScript, which trim() removes
unfoldable pub is_space : ℕ → Bool
is_space n =
    is_between 9 13 n
    || is_unit 32 n
    || is_unit 0xa0 n
    || is_unit 0x1680 n
    || is_between 0x2000 0x200a n
    || is_between 0x2028 0x2029 n
    || is_unit 0x202f n
    || is_unit 0x205f n
    || is_unit 0x3000 n
    || is_unit 0xfeff n

unfoldable pub trim_start : String → String
unfolding is_space
trim_start String.[] = ""
trim_start (String.◌∷◌ c s) = if is_space (code c) then trim_start s else String.◌∷◌ c s

unfoldable pub trim_end : String → String
unfolding is_space
trim_end String.[] = ""
trim_end (String.◌∷◌ c s) =
    let rest = trim_end s in if is_space (code c) && rest == "" then "" else String.◌∷◌ c rest

unfoldable pub trim : String → String
unfolding trim_start trim_end
trim s = trim_end (trim_start s)

unfoldable pub digit_text : ℕ → String
digit_text zero = "0"
digit_text (suc zero) = "1"
digit_text (suc (suc zero)) = "2"
digit_text (suc (suc (suc zero))) = "3"
digit_text (suc (suc (suc (suc zero)))) = "4"
digit_text (suc (suc (suc (suc (suc zero))))) = "5"
digit_text (suc (suc (suc (suc (suc (suc zero)))))) = "6"
digit_text (suc (suc (suc (suc (suc (suc (suc zero))))))) = "7"
digit_text (suc (suc (suc (suc (suc (suc (suc (suc zero)))))))) = "8"
digit_text _ = "9"

-- The decimal digits of a number; the fuel bounds how many there are.
unfoldable pub decimal : ℕ → ℕ → String
unfolding digit_text
decimal zero n = ""
decimal (suc fuel) n =
    let more = String.◌++◌ (decimal fuel (n / 10)) (digit_text (n % 10)) in
    if ltb n 10 then digit_text n else more

-- `String(n)`: a number has no more digits than its successor counts.
unfoldable pub to_string : ℕ → String
unfolding decimal
to_string n = decimal (suc n) n
