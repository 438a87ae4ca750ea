-- ===== src/AdminSettings/RollsBack.antt =====
-- What the rollback of a listener change restores.
use wi_fi_roaming_with_i_kua.Prelude.{
  ℕ, ◌≡◌, refl, sym, ap, ◌∙◌, subst, Bool, true, false, ◌&&◌, not, List, [], ◌∷◌, Option, none,
  some, if◌then◌else◌, arith,
}
use wi_fi_roaming_with_i_kua.Text.{Text, bytes, text_eq}
use wi_fi_roaming_with_i_kua.Text.Laws.{text_eq_iff}
use wi_fi_roaming_with_i_kua.Maps.{Map, lookup}
use wi_fi_roaming_with_i_kua.Maps.Laws.{lookup-put}
use wi_fi_roaming_with_i_kua.Database.{no_faults}
use wi_fi_roaming_with_i_kua.Numbers.{ℤ}
use wi_fi_roaming_with_i_kua.Secrets.{Cipher, IsCipher, Keyring, new_keyring}
use wi_fi_roaming_with_i_kua.Settings.{SettingRow, saved, loaded}
use wi_fi_roaming_with_i_kua.Settings.Store.{save, load_all}
use wi_fi_roaming_with_i_kua.Settings.Represents.{Plain, Represents, or_else}
use wi_fi_roaming_with_i_kua.Settings.Refinement.{
  DrawsNonces, IsUnmarked, override, save-Represents,
}
use wi_fi_roaming_with_i_kua.Settings.Snapshot.{
  is_dotless, dotless_rows, load_all-Represents, text_eq-key_name,
}
use wi_fi_roaming_with_i_kua.Config.{Config, BootstrapConfig}
use wi_fi_roaming_with_i_kua.Config.Registry.{
  SettingDef, is_secret_setting, section_keys, sec_tls, find_def, setting_registry,
}
use wi_fi_roaming_with_i_kua.Config.Runtime.{runtime_config}
use wi_fi_roaming_with_i_kua.Config.Saved.{dotless_rows-save}
use wi_fi_roaming_with_i_kua.Listeners.{Host, Manager, apply}
use wi_fi_roaming_with_i_kua.AdminSettings.{
  App, Runtime, put_all, default_entries, restore_of, defines, reload_runtime, roll_back,
}

lookup-put_all :
    (k : Text) (more m : Map Text)
    → lookup k (put_all more m) ≡ or_else (lookup k more) (lookup k m)
unfolding put_all lookup
lookup-put_all k [] m = refl
lookup-put_all k ((j, v) ∷ more) m =
    ground (arith, lookup-put_all k more m, lookup-put j k v (put_all more m), text_eq_iff j k)

-- Whether a section, like every other without a dot in its name, has no credential.
unfoldable no_credential_in : Text → List SettingDef → Bool
no_credential_in section [] = true
no_credential_in section (d ∷ defs) =
    is_dotless d.section
    && (not (d.is_credential && text_eq d.section section) && no_credential_in section defs)

found_credential : Option SettingDef → Bool
found_credential none = false
found_credential (some d) = d.is_credential

not_credential :
    (section k : Text) (defs : List SettingDef)
    → is_dotless section ≡ true
    → no_credential_in section defs ≡ true
    → found_credential (find_def section k defs) ≡ false
unfolding find_def no_credential_in found_credential
not_credential section k [] d h = refl
not_credential section k (e ∷ defs) d h =
    ground
      (arith, h, d, text_eq-key_name e.section section e.key k, not_credential section k defs d)

tls_plain : no_credential_in sec_tls setting_registry ≡ true
unfolding no_credential_in setting_registry is_dotless text_eq
tls_plain = refl

tls_dotless : is_dotless sec_tls ≡ true
unfolding is_dotless
tls_dotless = refl

-- The TLS section has no credential.
pub no_tls_credential : (k : Text) → is_secret_setting sec_tls k ≡ false
unfolding is_secret_setting found_credential
no_tls_credential k =
    ground (arith, not_credential sec_tls k setting_registry tls_dotless tls_plain)

tls-IsUnmarked : (values : Map Text) → IsUnmarked is_secret_setting sec_tls values
unfolding IsUnmarked
tls-IsUnmarked values k e = absurd (ground (arith, e, no_tls_credential k))

undefined_default :
    (defs : List SettingDef) (k : Text)
    → lookup k (default_entries defs) ≡ none
    → defines defs k ≡ false
unfolding default_entries defines lookup
undefined_default [] k e = refl
undefined_default (d ∷ defs) k e =
    ground
      (arith, e, undefined_default defs k, lookup-put d.key k d.fallback (default_entries defs))

-- The values of the TLS section with the defaults where none is stored, and every other as it is.
abbrev pub with_defaults : Plain → Plain
with_defaults plain s k =
    if text_eq s sec_tls
    then or_else (plain s k) (lookup k (default_entries (section_keys sec_tls)))
    else plain s k

-- Only settings of the TLS section were written.
unfoldable pub OnlyDefined : Map Text → Type 0
OnlyDefined merged = (k : Text) → defines (section_keys sec_tls) k ≡ false → lookup k merged ≡ none

restored :
    (plain : Plain) (stored merged : Map Text) (s k : Text)
    → ((j : Text) → lookup j stored ≡ plain sec_tls j)
    → OnlyDefined merged
    → override sec_tls (restore_of stored) (override sec_tls merged plain) s k
      ≡ with_defaults plain s k
unfolding restore_of OnlyDefined
restored plain stored merged s k same only = ground (
  arith,
  same k,
  only k,
  undefined_default (section_keys sec_tls) k,
  lookup-put_all k stored (default_entries (section_keys sec_tls)),
  text_eq_iff s sec_tls,
)

module _ (c : Cipher) (material : Text) (parse_duration : Text → Option ℤ) (host_of : Text → Text)
    (discovers : Config → Bool) (boot : BootstrapConfig) where
  abbrev keyring : Keyring
  keyring = new_keyring c material

  config-reload_runtime :
      (rows : List SettingRow) (rt : Runtime) (m : Map Text)
      → load_all c keyring is_secret_setting false rows ≡ loaded m
      → (reload_runtime c keyring parse_duration host_of discovers boot false rows rt).0.config
        ≡ runtime_config parse_duration host_of boot m
  unfolding reload_runtime
  config-reload_runtime rows rt m e = ground (arith, e)

  -- What a rollback ends with.
  pub record IsRestored (host : Host) (plain : Plain) (before : Manager) (b : App) : Type 0 where
    pub table : Represents c keyring is_secret_setting b.rows (with_defaults plain)
    pub config :
        (m : Map Text) × (load_all c keyring is_secret_setting false b.rows ≡ loaded m)
        × (b.runtime.config ≡ runtime_config parse_duration host_of boot m)
    pub listeners : b.listeners ≡ (apply host b.runtime.config before).0

  rolled_back :
      (host : Host) (draws : Text → Option Text) (now : ℕ) (by : Text) (restore : Map Text)
      (a : App) (after : List SettingRow)
      → save c keyring is_secret_setting no_faults draws now sec_tls restore
          (bytes "rollback")
          a.rows
        ≡ (after, saved)
      → ((roll_back c keyring parse_duration host_of discovers boot no_faults host draws now by
            restore a).0.rows
          ≡ after)
        × ((roll_back c keyring parse_duration host_of discovers boot no_faults host draws now by
              restore a).0.runtime
            ≡ (reload_runtime c keyring parse_duration host_of discovers boot false after
                a.runtime).0)
        × ((roll_back c keyring parse_duration host_of discovers boot no_faults host draws now by
              restore a).0.listeners
            ≡ (apply host
                (reload_runtime c keyring parse_duration host_of discovers boot false after
                  a.runtime).0.config
                a.listeners).0)
  unfolding roll_back
  rolled_back host draws now by restore a after w =
      (ground (arith, w), ground (arith, w), ground (arith, w))

  -- A rollback of a change that wrote settings of the TLS section over a table that stood for a map,
  -- while every statement works, leaves a table that stands for that map again, with the defaults for
  -- what it did not have; the configuration is the one that is built of this table; and the listeners
  -- are brought in line with it.
  pub roll_back-IsRestored :
      (host : Host) (draws : Text → Option Text) (now : ℕ) (by : Text) (stored merged : Map Text)
      (plain : Plain) (a : App)
      → IsCipher c
      → DrawsNonces c draws
      → ((k : Text) → lookup k stored ≡ plain sec_tls k)
      → OnlyDefined merged
      → dotless_rows a.rows ≡ true
      → Represents c keyring is_secret_setting a.rows (override sec_tls merged plain)
      → IsRestored host plain a.listeners
          (roll_back c keyring parse_duration host_of discovers boot no_faults host draws now by
            (restore_of stored)
            a).0
  roll_back-IsRestored host draws now by stored merged plain a h drawn same only dotless r =
      let restore = restore_of stored in
      let (after, w, r') =
        save-Represents c material is_secret_setting draws now sec_tls (bytes "rollback") restore
          a.rows (override sec_tls merged plain) h drawn (tls-IsUnmarked restore) r in
      let kept =
        subst (λ p. dotless_rows p.0 ≡ true) w
          (dotless_rows-save c material is_secret_setting no_faults draws now sec_tls
            (bytes "rollback") restore a.rows tls_dotless dotless) in
      let (rows, runtime, listeners) = rolled_back host draws now by restore a after w in
      let table : Represents c keyring is_secret_setting after (with_defaults plain) = record {
        keyed = r'.keyed;
        reads = λ s k. ground (arith, r'.reads s k, restored plain stored merged s k same only);
      } in
      let (m, loads, looks) =
        load_all-Represents c keyring is_secret_setting after (with_defaults plain) kept table in
      record {
        table =
            subst (λ l. Represents c keyring is_secret_setting l (with_defaults plain)) (sym rows)
              table;
        config = (
          m,
          ap (load_all c keyring is_secret_setting false) rows ∙ loads,
          ap (λ (t : Runtime). t.config) runtime ∙ config-reload_runtime after a.runtime m loads,
        );
        listeners =
            listeners ∙ ap (λ (t : Runtime). (apply host t.config a.listeners).0) (sym runtime);
      }
