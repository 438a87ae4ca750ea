-- ===== src/Numbers/Bounds.antt =====
-- Reading back what is printed, and the products that do not wrap.
use wi_fi_roaming_with_i_kua.Prelude.{
  ℕ, zero, suc, ◌+◌, ◌*◌, ◌/◌, ◌%◌, ◌^◌, ◌<◌, ◌≡◌, ap, ◌∙◌, Bool, true, false, ◌&&◌, [], ◌∷◌, some,
  leb, arith,
}
use wi_fi_roaming_with_i_kua.Text.{Text}
use wi_fi_roaming_with_i_kua.Numbers.{
  pos, signed64, times64, digits_from, digits, in_range, atoi, decimal_from, itoa,
}

digits_from-decimal_from :
    (fuel n : ℕ) (rest : Text)
    → n < 10 ^ suc fuel
    → digits_from 0 (decimal_from (suc fuel) n rest) ≡ digits_from n rest
unfolding digits_from decimal_from
digits_from-decimal_from zero n rest lt = ground (arith, lt)
digits_from-decimal_from (suc fuel) n rest lt =
    ground (arith, lt, digits_from-decimal_from fuel (n / 10) ((48 + n % 10) ∷ rest))

-- The product of a number and a factor that 64 bits hold is exact.
times64-exact : (n k : ℕ) → n * k < 2 ^ 63 → times64 (pos n) k ≡ pos (n * k)
unfolding times64 signed64
times64-exact n k lt = ground (arith, lt)

begins_digit : Text → Bool
begins_digit [] = false
begins_digit (c ∷ s) = leb 48 c && leb c 57

decimal_from-begins_digit :
    (fuel n : ℕ) (rest : Text) → begins_digit (decimal_from (suc fuel) n rest) ≡ true
unfolding begins_digit decimal_from
decimal_from-begins_digit zero n rest = ground arith
decimal_from-begins_digit (suc fuel) n rest =
    ground (arith, decimal_from-begins_digit fuel (n / 10) ((48 + n % 10) ∷ rest))

atoi-digits : (t : Text) → begins_digit t ≡ true → atoi t ≡ in_range (digits_from 0 t)
unfolding begins_digit atoi digits
atoi-digits [] h = absurd (ground (arith, h))
atoi-digits (c ∷ s) h = ground (arith, h)

-- A number that 64 bits hold is read back from its decimal digits.
pub atoi-itoa : (n : ℕ) → n < 2 ^ 63 → atoi (itoa n) ≡ some (pos n)
unfolding itoa in_range digits_from
atoi-itoa n lt =
    atoi-digits (itoa n) (decimal_from-begins_digit 19 n [])
    ∙ ap in_range (digits_from-decimal_from 19 n [] (omega (arith, lt)))
    ∙ ground (arith, lt)
