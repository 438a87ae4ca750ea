-- ===== src/Maps.antt =====
-- Go maps with text keys, as association lists. A lookup finds the first entry of a key; `keep` is
-- the loop that deletes the entries which fail a test.
pub mod Laws
pub mod Evict
use wi_fi_roaming_with_i_kua.Prelude.{
  ℕ, Bool, true, false, List, [], ◌∷◌, Option, none, some, length, if◌then◌else◌, ltb, map,
}
use wi_fi_roaming_with_i_kua.Text.{Text, text_eq}

abbrev pub Map {ℓ} : Type ℓ → Type ℓ
Map V = List (Text × V)

module _ {ℓ} {V : Type ℓ} where
  unfoldable pub lookup : Text → Map V → Option V
  lookup k [] = none
  lookup k ((j, v) ∷ m) = if text_eq j k then some v else lookup k m

  -- `_, ok := m[k]`
  unfoldable pub has_key : Text → Map V → Bool
  unfolding lookup
  has_key k m = elim (lookup k m) [ none ↦ false | some v ↦ true ]

  -- `m[k] = v`
  unfoldable pub put : Text → V → Map V → Map V
  put k v [] = (k, v) ∷ []
  put k v ((j, w) ∷ m) = if text_eq j k then (k, v) ∷ m else (j, w) ∷ put k v m

  -- `delete(m, k)`
  unfoldable pub delete : Text → Map V → Map V
  delete k [] = []
  delete k ((j, v) ∷ m) = let rest = delete k m in if text_eq j k then rest else (j, v) ∷ rest

  -- `for k, v := range m { if !p(v) { delete(m, k) } }`
  unfoldable pub keep : (V → Bool) → Map V → Map V
  unfolding delete
  keep p [] = []
  keep p ((j, v) ∷ m) = let rest = delete j (keep p m) in if p v then (j, v) ∷ rest else rest

  abbrev pub keys : Map V → List Text
  keys = map (λ e. e.0)
