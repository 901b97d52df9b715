-- ===== src/Common/Regex.antt =====
-- Regular expressions on UTF-16 code units, matched by derivatives.
use test_specs_to_code.Common.{ℕ, Bool, true, false, ◌&&◌, ◌||◌, List, [], ◌∷◌, if◌then◌else◌}

pub data Regex : Type 0 where
  never empty : Regex
  unit : (ℕ → Bool) → Regex
  seq alt : Regex → Regex → Regex
  star : Regex → Regex

unfoldable pub nullable : Regex → Bool
nullable never = false
nullable empty = true
nullable (unit p) = false
nullable (seq a b) = nullable a && nullable b
nullable (alt a b) = nullable a || nullable b
nullable (star a) = true

unfoldable pub derive : ℕ → Regex → Regex
unfolding nullable
derive u never = never
derive u empty = never
derive u (unit p) = if p u then empty else never
derive u (seq a b) = alt (seq (derive u a) b) (if nullable a then derive u b else never)
derive u (alt a b) = alt (derive u a) (derive u b)
derive u (star a) = seq (derive u a) (star a)

-- `/^r$/.test(s)` on the code units of s
unfoldable pub matches : Regex → List ℕ → Bool
unfolding nullable derive
matches r [] = nullable r
matches r (u ∷ us) = matches (derive u r) us

-- r+
unfoldable pub plus : Regex → Regex
plus r = seq r (star r)
