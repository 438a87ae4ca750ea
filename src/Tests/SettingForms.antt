-- ===== src/Tests/SettingForms.antt =====
-- The forms and pages of settings at concrete inputs.
use wi_fi_roaming_with_i_kua.Prelude.{◌≡◌, refl, select, true, false, [], ◌∷◌, none, arith}
use wi_fi_roaming_with_i_kua.Text.{Text, bytes, text_eq, is_empty, has_prefix}
use wi_fi_roaming_with_i_kua.Text.Laws.{text_eq_iff}
use wi_fi_roaming_with_i_kua.Maps.{Map, lookup, put}
use wi_fi_roaming_with_i_kua.Secrets.{decrypt}
use wi_fi_roaming_with_i_kua.Settings.{SettingRow, loaded}
use wi_fi_roaming_with_i_kua.Settings.Store.{
  read_value, redact_fields, redact_present, key_name, load_section, load_result, read_rows,
  apply_secret_updates,
}
use wi_fi_roaming_with_i_kua.Settings.Represents.{or_else}
use wi_fi_roaming_with_i_kua.Settings.Forms.{lookup-redact_fields}
use wi_fi_roaming_with_i_kua.Maps.Laws.{lookup-put}
use wi_fi_roaming_with_i_kua.Config.Registry.{
  is_secret_setting, section_keys, setting_registry, find_def,
}
use wi_fi_roaming_with_i_kua.Config.Validation.{section_of, validate_runtime_config}
use wi_fi_roaming_with_i_kua.AdminSettings.{
  App, get_settings_section, shows, fill_defaults, allowed_entries,
}
use wi_fi_roaming_with_i_kua.AdminSettings.Pages.{no_credential_shown}
use wi_fi_roaming_with_i_kua.AdminSettings.Unedited.{IsUnedited, value_of, unedited_form}
use wi_fi_roaming_with_i_kua.Tests.Stored.{
  clear, keyring, parse_duration, host_of, discovers, boot, behind_proxy, app,
}

abbrev app_key_row : SettingRow
app_key_row = record {
  section = bytes "ikuai";
  key = bytes "app_key";
  value = bytes "k3y";
  updated_at = 5;
  updated_by = bytes "ann";
}

abbrev keyed_app : App
keyed_app = record app { rows = app_key_row ∷ [] }

app_key_credential : is_secret_setting (bytes "ikuai") (bytes "app_key") ≡ true
unfolding is_secret_setting find_def setting_registry key_name text_eq
app_key_credential = refl

abbrev filled : Map Text
filled = fill_defaults (section_keys (bytes "ikuai")) ((bytes "app_key", bytes "k3y") ∷ [])

app_key_loaded :
    load_section clear keyring is_secret_setting false (bytes "ikuai") (app_key_row ∷ [])
    ≡ loaded ((bytes "app_key", bytes "k3y") ∷ [])
unfolding load_section load_result read_rows read_value is_secret_setting find_def setting_registry
    key_name text_eq decrypt has_prefix put is_empty
app_key_loaded = refl

app_key_page :
    get_settings_section clear keyring parse_duration host_of discovers boot false
      (bytes "ikuai")
      keyed_app
    ≡ shows
        (redact_fields is_secret_setting (bytes "ikuai") filled)
        (redact_present is_secret_setting (bytes "ikuai") filled)
        (section_keys (bytes "ikuai"))
        (select
          (λ p. text_eq (section_of p) (bytes "ikuai"))
          (validate_runtime_config host_of behind_proxy))
unfolding get_settings_section
app_key_page = ground (arith, app_key_loaded)

no_credential_shown_example :
    lookup (bytes "app_key") (redact_fields is_secret_setting (bytes "ikuai") filled) ≡ none
no_credential_shown_example =
    no_credential_shown clear keyring parse_duration host_of discovers boot false (bytes "ikuai")
      (bytes "app_key") keyed_app (redact_fields is_secret_setting (bytes "ikuai") filled)
      (redact_present is_secret_setting (bytes "ikuai") filled) (section_keys (bytes "ikuai"))
      (select (λ p. text_eq (section_of p) (bytes "ikuai"))
        (validate_runtime_config host_of behind_proxy))
      app_key_credential app_key_page

abbrev page_fields : Map Text
page_fields = redact_fields is_secret_setting (bytes "ikuai") filled

-- The form with a blank for the credential.
abbrev page_form : Map Text
page_form = put (bytes "app_key") [] page_fields

page_form-IsUnedited : IsUnedited (bytes "ikuai") page_fields page_form
page_form-IsUnedited = record {
  given = λ k e. ground (
    arith,
    e,
    app_key_credential,
    lookup-put (bytes "app_key") k [] page_fields,
    text_eq_iff (bytes "app_key") k,
  );
  blanks = λ k v e n. ground (
    arith,
    e,
    n,
    lookup-put (bytes "app_key") k [] page_fields,
    lookup-redact_fields is_secret_setting (bytes "ikuai") k filled,
  );
}

unedited_form_example :
    value_of (
      or_else
        (lookup (bytes "app_key") (
          apply_secret_updates is_secret_setting
            (bytes "ikuai")
            ((bytes "app_key", bytes "k3y") ∷ [])
            (allowed_entries (section_keys (bytes "ikuai")) page_form)))
        (lookup (bytes "app_key") ((bytes "app_key", bytes "k3y") ∷ [])))
    ≡ bytes "k3y"
unfolding lookup is_secret_setting find_def setting_registry key_name text_eq
unedited_form_example =
    unedited_form clear keyring parse_duration host_of discovers boot false (bytes "ikuai")
      (bytes "app_key") keyed_app ((bytes "app_key", bytes "k3y") ∷ []) page_fields page_form
      (redact_present is_secret_setting (bytes "ikuai") filled) (section_keys (bytes "ikuai"))
      (select (λ p. text_eq (section_of p) (bytes "ikuai"))
        (validate_runtime_config host_of behind_proxy))
      app_key_loaded app_key_page page_form-IsUnedited
