-- ===== src/Settings/Forms.antt =====
-- Looking up what a page gets of a section, and what is saved of its form.
use wi_fi_roaming_with_i_kua.Prelude.{
  ◌≡◌, refl, Bool, not, [], ◌∷◌, Option, none, some, if◌then◌else◌, arith,
}
use wi_fi_roaming_with_i_kua.Text.{Text, is_empty}
use wi_fi_roaming_with_i_kua.Text.Laws.{text_eq_iff}
use wi_fi_roaming_with_i_kua.Maps.{Map, lookup}
use wi_fi_roaming_with_i_kua.Maps.Laws.{lookup-put}
use wi_fi_roaming_with_i_kua.Settings.{SecretKeys}
use wi_fi_roaming_with_i_kua.Settings.Store.{
  redact_fields, redact_present, updated_value, apply_secret_updates,
}

-- A map with a function of key and value applied.
abbrev pub at_value : (Text → Text) → Option Text → Option Text
at_value f none = none
at_value f (some v) = some (f v)

-- The fields are the section's entries without the credentials.
pub lookup-redact_fields :
    (secrets : SecretKeys) (section k : Text) (m : Map Text)
    → lookup k (redact_fields secrets section m) ≡ (if secrets section k then none else lookup k m)
unfolding redact_fields lookup
lookup-redact_fields secrets section k [] = ground arith
lookup-redact_fields secrets section k ((j, v) ∷ m) = ground (
  arith,
  lookup-redact_fields secrets section k m,
  lookup-put j k v (redact_fields secrets section m),
  text_eq_iff j k,
)

abbrev pub is_set : Option Text → Option Bool
is_set none = none
is_set (some v) = some (not (is_empty v))

pub lookup-redact_present :
    (secrets : SecretKeys) (section k : Text) (m : Map Text)
    → lookup k (redact_present secrets section m)
      ≡ (if secrets section k then is_set (lookup k m) else none)
unfolding redact_present lookup
lookup-redact_present secrets section k [] = ground arith
lookup-redact_present secrets section k ((j, v) ∷ m) = ground (
  arith,
  lookup-redact_present secrets section k m,
  lookup-put j k (not (is_empty v)) (redact_present secrets section m),
  text_eq_iff j k,
)

pub lookup-apply_secret_updates :
    (secrets : SecretKeys) (section k : Text) (stored submitted : Map Text)
    → lookup k (apply_secret_updates secrets section stored submitted)
      ≡ at_value (updated_value secrets section stored k) (lookup k submitted)
unfolding apply_secret_updates lookup
lookup-apply_secret_updates secrets section k stored [] = refl
lookup-apply_secret_updates secrets section k stored ((j, v) ∷ m) = ground (
  arith,
  lookup-apply_secret_updates secrets section k stored m,
  lookup-put j k (updated_value secrets section stored j v)
      (apply_secret_updates secrets section stored m),
  text_eq_iff j k,
)
