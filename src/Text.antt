-- ===== src/Text.antt =====
-- Go strings as lists of bytes: what the portal uses of the package strings. `to_lower` and
-- `trim_space` are those of the ASCII range.
pub mod Laws
use Prim.Native.Char.{code}
use Prim.Native.String.{String}
use wi_fi_roaming_with_i_kua.Prelude.{
  ℕ, ◌+◌, ◌-◌, Option, none, some, ◌≡◌, refl, ◌↔◌, Bool, true, false, ◌&&◌, ◌||◌, List, [], ◌∷◌,
  map, reverse, arith, leb, ltb, ◌==◌, if◌then◌else◌,
}

abbrev pub Text : Type 0
Text = List ℕ

-- The bytes of a literal.
abbrev pub bytes : String → Text
bytes String.[] = []
bytes (String.◌∷◌ c s) = code c ∷ bytes s

unfoldable pub text_eq : Text → Text → Bool
text_eq [] [] = true
text_eq (a ∷ s) (b ∷ t) = a == b && text_eq s t
text_eq _ _ = false

unfoldable pub contains : Text → List Text → Bool
unfolding text_eq
contains t [] = false
contains t (s ∷ l) = text_eq s t || contains t l

unfoldable pub is_empty : Text → Bool
is_empty [] = true
is_empty (a ∷ s) = false

-- Tab, line feed, vertical tab, form feed, carriage return and space.
unfoldable pub is_space : ℕ → Bool
is_space c = leb 9 c && leb c 13 || c == 32

unfoldable pub lower_byte : ℕ → ℕ
lower_byte c = if leb 65 c && leb c 90 then c + 32 else c

-- strings.ToLower
unfoldable pub to_lower : Text → Text
unfolding lower_byte
to_lower s = map lower_byte s

unfoldable pub trim_left : Text → Text
unfolding is_space
trim_left [] = []
trim_left (c ∷ s) = if is_space c then trim_left s else c ∷ s

-- strings.TrimSpace
unfoldable pub trim_space : Text → Text
unfolding trim_left
trim_space s = reverse (trim_left (reverse (trim_left s)))

-- strings.HasPrefix
unfoldable pub has_prefix : Text → Text → Bool
has_prefix s [] = true
has_prefix [] (b ∷ p) = false
has_prefix (a ∷ s) (b ∷ p) = a == b && has_prefix s p

-- `<` of two strings.
unfoldable pub text_ltb : Text → Text → Bool
text_ltb s [] = false
text_ltb [] (b ∷ t) = true
text_ltb (a ∷ s) (b ∷ t) = ltb a b || a == b && text_ltb s t

-- strings.ToUpper
unfoldable pub to_upper : Text → Text
to_upper s = map (λ c. if leb 97 c && leb c 122 then c - 32 else c) s

-- strings.Contains
unfoldable pub has_substring : Text → Text → Bool
unfolding has_prefix
has_substring [] p = has_prefix [] p
has_substring (c ∷ s) p = has_prefix (c ∷ s) p || has_substring s p

-- strings.Index of one byte.
unfoldable pub index_of : Text → ℕ → Option ℕ
index_of [] b = none
index_of (c ∷ s) b =
    let next : Option ℕ = elim (index_of s b) [ none ↦ none | some n ↦ some (n + 1) ] in
    if c == b then some 0 else next

-- What follows the last occurrence of a byte.
unfoldable pub after_last : Text → ℕ → Option Text
after_last [] b = none
after_last (c ∷ s) b = elim (after_last s b) [
  | none ↦ if c == b then some s else none
  | some t ↦ some t
]
