-- ===== src/AdminSettings.antt =====
-- portal/admin_settings.go, portal/runtime.go and the end of portal/listeners.go: the settings pages,
-- the configuration built of them, and the listeners that follow it. The body of a request is the map
-- it decodes to. Building the client of the identity provider and reading a stored certificate are
-- arguments. The statements of a call fail by their order; the Duo client is left out.
pub mod Pages
pub mod Saves
pub mod Unedited
pub mod RollsBack
use wi_fi_roaming_with_i_kua.Prelude.{
  ℕ, suc, ◌-◌, Bool, true, false, ◌&&◌, ◌||◌, not, List, [], ◌∷◌, ◌++◌, Option, none, some,
  if◌then◌else◌, select, length, map, ltb,
}
use wi_fi_roaming_with_i_kua.Text.{Text, bytes, text_eq, is_empty}
use wi_fi_roaming_with_i_kua.Maps.{Map, lookup, put, has_key, keys}
use wi_fi_roaming_with_i_kua.Database.{Faults, after_faults}
use wi_fi_roaming_with_i_kua.Numbers.{ℤ}
use wi_fi_roaming_with_i_kua.Secrets.{Cipher, Keyring, Failure}
use wi_fi_roaming_with_i_kua.Settings.{
  SettingRow, SaveResult, saved, not_encrypted, not_written, LoadResult, loaded, unreadable,
  not_loaded, sort_texts,
}
use wi_fi_roaming_with_i_kua.Settings.Store.{
  load_all, load_section, save, redact_fields, redact_present, apply_secret_updates,
}
use wi_fi_roaming_with_i_kua.Config.{Config, BootstrapConfig}
use wi_fi_roaming_with_i_kua.Config.Registry.{
  SettingDef, is_secret_setting, section_keys, known_sections, sec_tls,
}
use wi_fi_roaming_with_i_kua.Config.Runtime.{runtime_config}
use wi_fi_roaming_with_i_kua.Config.Validation.{
  Finding, validate_runtime_config, section_of, is_fatal,
}
use wi_fi_roaming_with_i_kua.Listeners.{Host, Manager, apply, listener_risky}
use wi_fi_roaming_with_i_kua.ListenerCommit.{ListenerCommit, begin}
use wi_fi_roaming_with_i_kua.EventLog.{Table, log_admin_action}

-- runtimeState: the configuration, and whether there is a client of the identity provider.
pub record Runtime : Type 0 where
  pub config : Config
  pub oidc : Bool

-- The parts of `App` that a save changes. `restores` has what each change of the listeners began with,
-- by the number of the change, the last one first.
pub record App : Type 0 where
  pub rows : List SettingRow
  pub runtime : Runtime
  pub listeners : Manager
  pub commit : ListenerCommit
  pub restores : List (Map Text)
  pub events : Table

pub data Warning : Type 0 where
  settings_unread : Warning
  oidc_failed : Warning
  oidc_unset : Warning
  config_fatal : Finding → Warning
  cannot_listen : Warning
  rollback_unsaved : Warning

pub data Answer : Type 0 where
  invalid_body : Answer
  no_known_fields : Answer
  load_failed : Answer
  save_failed : Answer
  unknown_section : Answer
  method_not_allowed : Answer
  lists : List (Text × List SettingDef) → Answer
  shows : Map Text → Map Bool → List SettingDef → List Finding → Answer
  done : List Finding → Option Warning → Option ℕ → Answer

-- The first fatal finding, as a warning.
unfoldable pub first_fatal : List Finding → Option Warning
first_fatal [] = none
first_fatal (p ∷ problems) = if is_fatal p then some (config_fatal p) else first_fatal problems

unfoldable pub first_of : Option Warning → Option Warning → Option Warning
first_of none b = b
first_of (some a) b = some a

-- strings.Join with commas.
unfoldable pub join_comma : List Text → Text
join_comma [] = []
join_comma (s ∷ []) = s
join_comma (s ∷ t ∷ l) = s ++ (b',' ∷ join_comma (t ∷ l))

-- Filling a map with the defaults of a section, where a key is missing.
unfoldable pub fill_defaults : List SettingDef → Map Text → Map Text
fill_defaults [] m = m
fill_defaults (d ∷ defs) m =
    fill_defaults defs (if has_key d.key m then m else put d.key d.fallback m)

-- The submitted entries whose keys the section defines.
unfoldable pub defines : List SettingDef → Text → Bool
defines [] k = false
defines (d ∷ defs) k = text_eq d.key k || defines defs k

unfoldable pub allowed_entries : List SettingDef → Map Text → Map Text
allowed_entries defs [] = []
allowed_entries defs ((k, v) ∷ m) =
    let rest = allowed_entries defs m in if defines defs k then put k v rest else rest

-- What a rollback saves: the defaults of the section, and over them what was stored.
unfoldable pub put_all : Map Text → Map Text → Map Text
put_all [] m = m
put_all ((k, v) ∷ more) m = put k v (put_all more m)

unfoldable pub default_entries : List SettingDef → Map Text
default_entries [] = []
default_entries (d ∷ defs) = put d.key d.fallback (default_entries defs)

unfoldable pub restore_of : Map Text → Map Text
restore_of prev_section = put_all prev_section (default_entries (section_keys sec_tls))

-- The entry at a number from the end.
unfoldable pub restore_at : ℕ → List (Map Text) → Map Text
restore_at n [] = []
restore_at n (m ∷ l) = if ltb n (length l) then restore_at n l else m

module _ (c : Cipher) (keyring : Keyring) (parse_duration : Text → Option ℤ) (host_of : Text → Text)
    (discovers : Config → Bool) (boot : BootstrapConfig) where
  -- reloadRuntime
  unfoldable pub reload_runtime : Bool → List SettingRow → Runtime → Runtime × Option Warning
  reload_runtime fails rows rt = elim (load_all c keyring is_secret_setting fails rows) [
    | not_loaded ↦ (rt, some settings_unread)
    | unreadable f ↦ (rt, some settings_unread)
    | loaded v ↦
        let cfg = runtime_config parse_duration host_of boot v in
        let unset =
          is_empty cfg.tenant_id || is_empty cfg.client_id || is_empty cfg.client_secret in
        let fatal = first_fatal (validate_runtime_config host_of cfg) in
        if unset
        then (record { config = cfg; oidc = false }, some oidc_unset)
        else if discovers cfg
        then (record { config = cfg; oidc = true }, fatal)
        else (record { config = cfg; oidc = false }, some oidc_failed)
  ]

  -- The rollback that applyListenerChange arms: statements 0 to 3.
  unfoldable pub roll_back :
      Faults → Host → (Text → Option Text) → ℕ → Text → Map Text → App → App × Option Warning
  roll_back fails host draws now updated_by restore a =
      let written =
        save c keyring is_secret_setting fails draws now sec_tls restore (bytes "rollback")
          a.rows in
      let reloaded = reload_runtime (fails 2) written.0 a.runtime in
      let applied = apply host reloaded.0.config a.listeners in
      let after : App = record a {
        rows = written.0;
        runtime = reloaded.0;
        listeners = applied.0;
        events =
            log_admin_action (fails 3) now updated_by [] (bytes "error")
              (bytes "listener change rolled back unconfirmed") a.events;
      } in
      elim written.1 [
        | saved ↦ (after, if applied.1 then some cannot_listen else none)
        | not_encrypted f ↦ (a, some rollback_unsaved)
        | not_written ↦ (a, some rollback_unsaved)
      ]

  -- applyListenerChange: the deadline of an armed rollback, or the error.
  unfoldable pub apply_listener_change :
      Host → ℕ → Config → Map Text → App → App × Option ℕ × Option Warning
  apply_listener_change host now prev prev_section a =
      let applied = apply host a.runtime.config a.listeners in
      let b : App = record a { listeners = applied.0 } in
      let commit = begin now (length a.restores) a.commit in
      let armed : App = record b {
        commit = commit;
        restores = restore_of prev_section ∷ a.restores;
      } in
      if not (listener_risky prev a.runtime.config)
      then (b, none, if applied.1 then some cannot_listen else none)
      else if applied.1
      then (b, none, some cannot_listen)
      else (armed, some commit.deadline, none)

  -- getSettingsSection
  unfoldable pub get_settings_section : Bool → Text → App → Answer
  get_settings_section fails section a =
      elim (load_section c keyring is_secret_setting fails section a.rows) [
        | not_loaded ↦ load_failed
        | unreadable f ↦ load_failed
        | loaded stored ↦
            let filled = fill_defaults (section_keys section) stored in
            shows (redact_fields is_secret_setting section filled)
              (redact_present is_secret_setting section filled) (section_keys section)
              (select (λ p. text_eq (section_of p) section)
                (validate_runtime_config host_of a.runtime.config))
      ]

  -- The end of a save: the record of it, the reload, and the listeners. Statements 0 and 1.
  unfoldable pub after_save :
      Faults → Host → ℕ → Text → Text → Text → Map Text → Map Text → Config → App → App × Answer
  after_save fails host now section client updated_by changed stored prev a =
      let events =
        log_admin_action (fails 0) now updated_by client (bytes "success")
          (bytes "settings save section="
            ++ (section ++ (bytes " keys=" ++ join_comma (sort_texts (keys changed)))))
          a.events in
      let reloaded = reload_runtime (fails 1) a.rows a.runtime in
      let b : App = record a { events = events; runtime = reloaded.0 } in
      let problems = validate_runtime_config host_of b.runtime.config in
      let changed_listeners = apply_listener_change host now prev stored b in
      if text_eq section sec_tls
      then (
        changed_listeners.0,
        done problems (first_of changed_listeners.2 reloaded.1) changed_listeners.1,
      )
      else (b, done problems reloaded.1 none)

  -- saveSettingsSection: the body is none where it does not decode. Statements 0 to 4.
  unfoldable pub save_settings_section :
      Faults
      → Host
      → (Text → Option Text)
      → ℕ
      → Text
      → Text
      → Text
      → Option (Map Text)
      → App
      → App × Answer
  save_settings_section fails host draws now section client updated_by none a = (a, invalid_body)
  save_settings_section fails host draws now section client updated_by (some submitted) a =
      let filtered = allowed_entries (section_keys section) submitted in
      let found : App × Answer =
        elim (load_section c keyring is_secret_setting (fails 0) section a.rows) [
          | not_loaded ↦ (a, load_failed)
          | unreadable f ↦ (a, load_failed)
          | loaded stored ↦
              let merged = apply_secret_updates is_secret_setting section stored filtered in
              let written =
                save c keyring is_secret_setting (after_faults 1 fails) draws now section merged
                  updated_by a.rows in
              let b : App = record a { rows = written.0 } in
              elim written.1 [
                | saved ↦
                    after_save (after_faults 3 fails) host now section client updated_by filtered
                      stored a.runtime.config b
                | not_encrypted f ↦ (b, save_failed)
                | not_written ↦ (b, save_failed)
              ]
        ] in
      if ltb 0 (length filtered) then found else (a, no_known_fields)

  -- handleAdminSettings, for an administrator who was admitted.
  unfoldable pub handle_admin_settings :
      Faults
      → Host
      → (Text → Option Text)
      → ℕ
      → Text
      → Text
      → Text
      → Text
      → Option (Map Text)
      → App
      → App × Answer
  handle_admin_settings fails host draws now http_method section client upn body a =
      if is_empty section
      then (a, lists (map (λ s. (s, section_keys s)) known_sections))
      else if not (ltb 0 (length (section_keys section)))
      then (a, unknown_section)
      else if text_eq http_method (bytes "GET")
      then (a, get_settings_section (fails 0) section a)
      else if text_eq http_method (bytes "POST")
      then save_settings_section fails host draws now section client upn body a
      else (a, method_not_allowed)
