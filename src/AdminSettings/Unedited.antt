-- ===== src/AdminSettings/Unedited.antt =====
-- A settings page whose form is sent back as it was rendered.
use wi_fi_roaming_with_i_kua.Prelude.{
  ◌≡◌, refl, subst, Bool, true, false, List, [], ◌∷◌, Option, none, some, if◌then◌else◌, arith, inl,
  inr, Bool-cases, Option-cases,
}
use wi_fi_roaming_with_i_kua.Text.{Text, text_eq, is_empty, trim_space}
use wi_fi_roaming_with_i_kua.Text.Laws.{text_eq_iff}
use wi_fi_roaming_with_i_kua.Maps.{Map, lookup, has_key, put}
use wi_fi_roaming_with_i_kua.Maps.Laws.{lookup-put}
use wi_fi_roaming_with_i_kua.Numbers.{ℤ}
use wi_fi_roaming_with_i_kua.Secrets.{Cipher, Keyring}
use wi_fi_roaming_with_i_kua.Settings.{loaded}
use wi_fi_roaming_with_i_kua.Settings.Store.{
  load_section, redact_fields, updated_value, apply_secret_updates,
}
use wi_fi_roaming_with_i_kua.Settings.Represents.{or_else}
use wi_fi_roaming_with_i_kua.Settings.Forms.{lookup-redact_fields, lookup-apply_secret_updates}
use wi_fi_roaming_with_i_kua.Config.{Config, BootstrapConfig}
use wi_fi_roaming_with_i_kua.Config.Registry.{SettingDef, is_secret_setting, section_keys}
use wi_fi_roaming_with_i_kua.Config.Validation.{Finding}
use wi_fi_roaming_with_i_kua.AdminSettings.{
  App, shows, get_settings_section, fill_defaults, defines, allowed_entries,
}
use wi_fi_roaming_with_i_kua.AdminSettings.Pages.{shown_fields}
use wi_fi_roaming_with_i_kua.AdminSettings.Saves.{lookup-allowed_entries}

-- The default of a key, where some definition has it.
unfoldable pub default_in : List SettingDef → Text → Option Text
default_in [] k = none
default_in (d ∷ defs) k = if text_eq d.key k then some d.fallback else default_in defs k

-- A value, the empty text where there is none.
abbrev pub value_of : Option Text → Text
value_of none = []
value_of (some v) = v

lookup-fill_defaults :
    (defs : List SettingDef) (k : Text) (m : Map Text)
    → lookup k (fill_defaults defs m) ≡ or_else (lookup k m) (default_in defs k)
unfolding fill_defaults default_in has_key
lookup-fill_defaults [] k m = ground arith
lookup-fill_defaults (d ∷ defs) k m = elim (Option-cases (lookup d.key m)) [
  | inl n ↦ ground (
    arith,
    n,
    lookup-fill_defaults defs k (put d.key d.fallback m),
    lookup-put d.key k d.fallback m,
    text_eq_iff d.key k,
  )
  | inr (v, n) ↦ ground (arith, n, lookup-fill_defaults defs k m, text_eq_iff d.key k)
]

undefined_default :
    (defs : List SettingDef) (k : Text) → defines defs k ≡ false → default_in defs k ≡ none
unfolding defines default_in
undefined_default [] k e = refl
undefined_default (d ∷ defs) k e = ground (arith, e, undefined_default defs k)

-- A form as the page was rendered: the fields as they were given, and each credential left out or
-- empty.
pub record IsUnedited (section : Text) (fields form : Map Text) : Type 0 where
  pub given : (k : Text) → is_secret_setting section k ≡ false → lookup k form ≡ lookup k fields
  pub blanks : (k v : Text) → is_secret_setting section k ≡ true → lookup k form ≡ some v → v ≡ []

-- What is saved of an unedited form, for one key.
unedited_entry :
    (section k : Text) (stored form : Map Text)
    → IsUnedited section
        (redact_fields is_secret_setting section (fill_defaults (section_keys section) stored))
        form
    → value_of (
        or_else
          (lookup k (
            apply_secret_updates is_secret_setting section stored
              (allowed_entries (section_keys section) form)))
          (lookup k stored))
      ≡ value_of (
          or_else
            (lookup k stored)
            (if is_secret_setting section k then none else default_in (section_keys section) k))
unfolding updated_value trim_space is_empty
unedited_entry section k stored form h =
    let defs = section_keys section in
    let saved_entry =
      lookup-apply_secret_updates is_secret_setting section k stored (allowed_entries defs form) in
    let allowed = lookup-allowed_entries defs k form in
    elim (Bool-cases (is_secret_setting section k)) [
      | inl e ↦ elim (Option-cases (lookup k form)) [
        | inl n ↦ ground (arith, e, n, saved_entry, allowed)
        | inr (v, n) ↦ ground (arith, e, n, saved_entry, allowed, h.blanks k v e n)
      ]
      | inr e ↦ ground (
        arith,
        e,
        saved_entry,
        allowed,
        h.given k e,
        lookup-redact_fields is_secret_setting section k (fill_defaults defs stored),
        lookup-fill_defaults defs k stored,
        undefined_default defs k,
      )
    ]

module _ (c : Cipher) (keyring : Keyring) (parse_duration : Text → Option ℤ) (host_of : Text → Text)
    (discovers : Config → Bool) (boot : BootstrapConfig) where
  -- When the form of a settings page is sent back as it was rendered from what was loaded, with the
  -- credentials left out or empty, the values that are saved, laid over the loaded ones, have for each
  -- key the loaded value; a key that had none gets the default that the page showed, or is empty if it
  -- is a credential.
  pub unedited_form :
      (fails : Bool) (section k : Text) (a : App) (stored fields form : Map Text)
      (present : Map Bool) (defs : List SettingDef) (problems : List Finding)
      → load_section c keyring is_secret_setting fails section a.rows ≡ loaded stored
      → get_settings_section c keyring parse_duration host_of discovers boot fails section a
        ≡ shows fields present defs problems
      → IsUnedited section fields form
      → value_of (
          or_else
            (lookup k (
              apply_secret_updates is_secret_setting section stored
                (allowed_entries (section_keys section) form)))
            (lookup k stored))
        ≡ value_of (
            or_else
              (lookup k stored)
              (if is_secret_setting section k then none else default_in (section_keys section) k))
  unedited_form fails section k a stored fields form present defs problems l shown h =
      unedited_entry section k stored form (
        subst (λ f. IsUnedited section f form)
          (shown_fields c keyring parse_duration host_of discovers boot fails section a stored
            fields present defs problems l shown)
          h)
