-- ===== src/AdminSettings/Pages.antt =====
-- What a settings page shows.
use wi_fi_roaming_with_i_kua.Prelude.{
  ◌≡◌, ◌⊎◌, refl, ap, ◌∙◌, inl, inr, Bool, true, List, Option, none, arith,
}
use wi_fi_roaming_with_i_kua.Text.{Text}
use wi_fi_roaming_with_i_kua.Maps.{Map, lookup}
use wi_fi_roaming_with_i_kua.Numbers.{ℤ}
use wi_fi_roaming_with_i_kua.Secrets.{Cipher, Keyring, Failure}
use wi_fi_roaming_with_i_kua.Settings.{LoadResult, loaded, not_loaded, unreadable}
use wi_fi_roaming_with_i_kua.Settings.Store.{load_section, redact_fields}
use wi_fi_roaming_with_i_kua.Settings.Forms.{lookup-redact_fields}
use wi_fi_roaming_with_i_kua.Config.{Config, BootstrapConfig}
use wi_fi_roaming_with_i_kua.Config.Registry.{SettingDef, is_secret_setting, section_keys}
use wi_fi_roaming_with_i_kua.Config.Validation.{Finding}
use wi_fi_roaming_with_i_kua.AdminSettings.{App, shows, get_settings_section, fill_defaults}

LoadResult-cases :
    (r : LoadResult)
    → ((m : Map Text) × (r ≡ loaded m)) ⊎ (r ≡ not_loaded) ⊎ ((f : Failure) × (r ≡ unreadable f))
LoadResult-cases (loaded m) = inl (m, refl)
LoadResult-cases not_loaded = inr (inl refl)
LoadResult-cases (unreadable f) = inr (inr (f, refl))

module _ (c : Cipher) (keyring : Keyring) (parse_duration : Text → Option ℤ) (host_of : Text → Text)
    (discovers : Config → Bool) (boot : BootstrapConfig) where
  -- The fields of a page, where the section was loaded.
  pub shown_fields :
      (fails : Bool) (section : Text) (a : App) (m fields : Map Text) (present : Map Bool)
      (defs : List SettingDef) (problems : List Finding)
      → load_section c keyring is_secret_setting fails section a.rows ≡ loaded m
      → get_settings_section c keyring parse_duration host_of discovers boot fails section a
        ≡ shows fields present defs problems
      → fields ≡ redact_fields is_secret_setting section (fill_defaults (section_keys section) m)
  unfolding get_settings_section
  shown_fields fails section a m fields present defs problems l e = ground (arith, l, e)

  -- No credential is among the fields that a page is given, whatever is stored and whatever fails.
  pub no_credential_shown :
      (fails : Bool) (section k : Text) (a : App) (fields : Map Text) (present : Map Bool)
      (defs : List SettingDef) (problems : List Finding)
      → is_secret_setting section k ≡ true
      → get_settings_section c keyring parse_duration host_of discovers boot fails section a
        ≡ shows fields present defs problems
      → lookup k fields ≡ none
  unfolding get_settings_section
  no_credential_shown fails section k a fields present defs problems secret e =
      elim (LoadResult-cases (load_section c keyring is_secret_setting fails section a.rows)) [
        | inl (m, l) ↦
            let filled = fill_defaults (section_keys section) m in
            ap (lookup k) (shown_fields fails section a m fields present defs problems l e)
            ∙ lookup-redact_fields is_secret_setting section k filled
            ∙ ground (arith, secret)
        | inr (inl l) ↦ absurd (ground (arith, l, e))
        | inr (inr (f, l)) ↦ absurd (ground (arith, l, e))
      ]
