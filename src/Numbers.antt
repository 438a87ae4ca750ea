-- ===== src/Numbers.antt =====
-- Go's machine integers as the portal uses them: `int` and `int64` of 64 bits, and what it uses of the
-- package strconv.
pub mod Bounds
use wi_fi_roaming_with_i_kua.Prelude.{
  ℕ, zero, suc, ◌+◌, ◌-◌, ◌*◌, ◌%◌, ◌^◌, ◌/◌, Bool, true, false, ◌&&◌, ◌||◌, List, [], ◌∷◌, Option,
  none, some, if◌then◌else◌, leb, ltb, ◌==◌,
}
use wi_fi_roaming_with_i_kua.Text.{Text, bytes, contains, is_empty, trim_space}

-- `negsuc n` is -(n + 1).
pub data ℤ : Type 0 where
  pos : ℕ → ℤ
  negsuc : ℕ → ℤ

unfoldable pub is_negative : ℤ → Bool
is_negative (pos n) = false
is_negative (negsuc n) = true

-- What is positive, and 0 for what is not.
unfoldable pub clamp : ℤ → ℕ
clamp (pos n) = n
clamp (negsuc n) = 0

-- The number that 64 bits hold, by its residue.
unfoldable pub signed64 : ℕ → ℤ
signed64 r = if ltb r (2 ^ 63) then pos r else negsuc (2 ^ 64 - 1 - r)

-- The product with a positive constant, wrapped to 64 bits.
unfoldable pub times64 : ℤ → ℕ → ℤ
times64 (pos n) k = signed64 (n * k % 2 ^ 64)
times64 (negsuc n) k = signed64 ((2 ^ 64 - (n + 1) * k % 2 ^ 64) % 2 ^ 64)

-- Decimal digits read after a number.
unfoldable pub digits_from : ℕ → Text → Option ℕ
digits_from n [] = some n
digits_from n (c ∷ s) =
    let rest = digits_from (n * 10 + (c - 48)) s in if leb 48 c && leb c 57 then rest else none

unfoldable pub digits : Text → Option ℕ
digits [] = none
digits (c ∷ s) = digits_from 0 (c ∷ s)

unfoldable pub in_range : Option ℕ → Option ℤ
in_range none = none
in_range (some n) = if ltb n (2 ^ 63) then some (pos n) else none

unfoldable pub negated : Option ℕ → Option ℤ
negated none = none
negated (some zero) = some (pos 0)
negated (some (suc n)) = if ltb n (2 ^ 63) then some (negsuc n) else none

-- strconv.Atoi, `none` for every error.
unfoldable pub atoi : Text → Option ℤ
atoi [] = none
atoi (c ∷ s) =
    if c == 45
    then negated (digits s)
    else if c == 43
    then in_range (digits s)
    else in_range (digits (c ∷ s))

-- strconv.ParseBool, `none` for an error.
unfoldable pub parse_bool : Text → Option Bool
parse_bool s =
    if contains s
      (bytes "1" ∷ bytes "t" ∷ bytes "T" ∷ bytes "TRUE" ∷ bytes "true" ∷ bytes "True" ∷ [])
    then some true
    else if contains s
        (bytes "0" ∷ bytes "f" ∷ bytes "F" ∷ bytes "FALSE" ∷ bytes "false" ∷ bytes "False" ∷ [])
    then some false
    else none

-- The decimal digits of a number of at most as many digits as the fuel, before a text.
unfoldable pub decimal_from : ℕ → ℕ → Text → Text
decimal_from zero n rest = rest
decimal_from (suc fuel) n rest =
    let more = decimal_from fuel (n / 10) ((48 + n % 10) ∷ rest) in
    if ltb n 10 then (48 + n) ∷ rest else more

-- strconv.Itoa of what is not negative: 64 bits have at most 20 digits.
unfoldable pub itoa : ℕ → Text
itoa n = decimal_from 20 n []
