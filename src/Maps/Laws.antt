-- ===== src/Maps/Laws.antt =====
-- Reading a map after a write, and how writes change its size.
use wi_fi_roaming_with_i_kua.Prelude.{
  ◌+◌, ◌≤◌, ◌≡◌, refl, Bool, true, [], ◌∷◌, Option, none, some, length, arith, if◌then◌else◌,
}
use wi_fi_roaming_with_i_kua.Text.{Text, text_eq}
use wi_fi_roaming_with_i_kua.Text.Laws.{text_eq_iff}
use wi_fi_roaming_with_i_kua.Maps.{Map, lookup, has_key, put, delete, keep}

module _ {ℓ} {V : Type ℓ} where
  pub lookup-put :
      (k j : Text) (v : V) (m : Map V)
      → lookup j (put k v m) ≡ (if text_eq k j then some v else lookup j m)
  unfolding lookup put
  lookup-put k j v [] = refl
  lookup-put k j v ((i, w) ∷ m) =
      ground (arith, text_eq_iff k j, text_eq_iff i k, text_eq_iff i j, lookup-put k j v m)

  pub lookup-delete :
      (k j : Text) (m : Map V) → lookup j (delete k m) ≡ (if text_eq k j then none else lookup j m)
  unfolding lookup delete
  lookup-delete k j [] = ground arith
  lookup-delete k j ((i, w) ∷ m) =
      ground (arith, text_eq_iff k j, text_eq_iff i k, text_eq_iff i j, lookup-delete k j m)

  -- What a test leaves of a lookup.
  abbrev pub kept : (V → Bool) → Option V → Option V
  kept p none = none
  kept p (some v) = if p v then some v else none

  pub lookup-keep :
      (p : V → Bool) (j : Text) (m : Map V) → lookup j (keep p m) ≡ kept p (lookup j m)
  unfolding lookup keep
  lookup-keep p j [] = refl
  lookup-keep p j ((i, w) ∷ m) =
      ground (arith, lookup-delete i j (keep p m), lookup-keep p j m, text_eq_iff i j)

  pub length-delete-le : (k : Text) (m : Map V) → length (delete k m) ≤ length m
  unfolding delete
  length-delete-le k [] = omega arith
  length-delete-le k ((i, w) ∷ m) = ground (arith, length-delete-le k m)

  pub length-keep-le : (p : V → Bool) (m : Map V) → length (keep p m) ≤ length m
  unfolding keep
  length-keep-le p [] = omega arith
  length-keep-le p ((i, w) ∷ m) = ground (arith, length-keep-le p m, length-delete-le i (keep p m))

  pub length-put-le : (k : Text) (v : V) (m : Map V) → length (put k v m) ≤ length m + 1
  unfolding put
  length-put-le k v [] = omega arith
  length-put-le k v ((i, w) ∷ m) = ground (arith, length-put-le k v m)

  -- Overwriting a key that is there does not grow the map.
  pub length-put_has :
      (k : Text) (v : V) (m : Map V) → has_key k m ≡ true → length (put k v m) ≡ length m
  unfolding put has_key
  length-put_has k v [] h = cc
  length-put_has k v ((i, w) ∷ m) h = ground (arith, length-put_has k v m)
