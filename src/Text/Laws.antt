-- ===== src/Text/Laws.antt =====
-- Equality of texts, and the laws of lower case and trimming.
use mathlib.Core.List.{map-append, reverse-append, reverse-cons, reverse-reverse}
use wi_fi_roaming_with_i_kua.Prelude.{
  ℕ, ◌≡◌, refl, ◌↔◌, inl, inr, true, false, [], ◌∷◌, ◌++◌, map, reverse, arith, Bool-cases,
}
use wi_fi_roaming_with_i_kua.Text.{
  Text, text_eq, is_space, lower_byte, to_lower, trim_left, trim_space,
}

text_eq_sound : (s t : Text) → text_eq s t ≡ true → s ≡ t
unfolding text_eq
text_eq_sound [] [] h = refl
text_eq_sound [] (b ∷ t) h = cc
text_eq_sound (a ∷ s) [] h = cc
text_eq_sound (a ∷ s) (b ∷ t) h = ground (arith, text_eq_sound s t)

pub text_eq_refl : (s : Text) → text_eq s s ≡ true
unfolding text_eq
text_eq_refl [] = refl
text_eq_refl (a ∷ s) = ground (arith, text_eq_refl s)

pub text_eq_iff : (s t : Text) → (text_eq s t ≡ true) ↔ (s ≡ t)
text_eq_iff s t = (text_eq_sound s t, λ e. rw e (text_eq_refl t))

pub is_space-lower : (c : ℕ) → is_space (lower_byte c) ≡ is_space c
unfolding is_space lower_byte
is_space-lower c = ground arith

pub lower_byte_idem : (c : ℕ) → lower_byte (lower_byte c) ≡ lower_byte c
unfolding lower_byte
lower_byte_idem c = ground arith

pub to_lower_idem : (s : Text) → to_lower (to_lower s) ≡ to_lower s
unfolding to_lower
to_lower_idem [] = refl
to_lower_idem (c ∷ s) = cc (lower_byte_idem c, to_lower_idem s)

to_lower-trim_left : (s : Text) → to_lower (trim_left s) ≡ trim_left (to_lower s)
unfolding to_lower trim_left
to_lower-trim_left [] = refl
to_lower-trim_left (c ∷ s) = ground (arith, is_space-lower c, to_lower-trim_left s)

map-reverse : (f : ℕ → ℕ) (s : Text) → map f (reverse s) ≡ reverse (map f s)
map-reverse f [] = refl
map-reverse f (c ∷ s) =
    rw (reverse-cons c s, map-append, map-reverse f s, reverse-cons (f c) (map f s)) refl

to_lower-reverse : (s : Text) → to_lower (reverse s) ≡ reverse (to_lower s)
unfolding to_lower
to_lower-reverse s = map-reverse lower_byte s

-- Trimming and lowering commute.
pub to_lower-trim_space : (s : Text) → to_lower (trim_space s) ≡ trim_space (to_lower s)
unfolding trim_space
to_lower-trim_space s = simp (to_lower-reverse, to_lower-trim_left)

trim_left_idem : (s : Text) → trim_left (trim_left s) ≡ trim_left s
unfolding trim_left
trim_left_idem [] = refl
trim_left_idem (c ∷ s) = ground (arith, trim_left_idem s)

trim_left_snoc :
    (s : Text) (c : ℕ) → is_space c ≡ false → trim_left (s ++ c ∷ []) ≡ trim_left s ++ c ∷ []
unfolding trim_left
trim_left_snoc [] c h = rw h
trim_left_snoc (a ∷ s) c h = elim (Bool-cases (is_space a)) [
  | inl e ↦ rw e (trim_left_snoc s c h)
  | inr e ↦ rw e
]

-- A text with nothing to trim in front keeps its front when its end is trimmed.
trim_left-trim_end :
    (s : Text)
    → trim_left (reverse (trim_left (reverse (trim_left s))))
      ≡ reverse (trim_left (reverse (trim_left s)))
unfolding trim_left
trim_left-trim_end [] = refl
trim_left-trim_end (c ∷ s) = elim (Bool-cases (is_space c)) [
  | inl e ↦ rw e (trim_left-trim_end s)
  | inr e ↦
      rw
        (
          e,
          reverse-cons c s,
          trim_left_snoc (reverse s) c e,
          reverse-append (trim_left (reverse s)) (c ∷ []),
        )
        (rw e)
]

pub trim_space_idem : (s : Text) → trim_space (trim_space s) ≡ trim_space s
unfolding trim_space
trim_space_idem s = simp (trim_left-trim_end, reverse-reverse, trim_left_idem)
