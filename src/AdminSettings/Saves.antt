-- ===== src/AdminSettings/Saves.antt =====
-- What saving a page writes.
use wi_fi_roaming_with_i_kua.Prelude.{
  ℕ, ◌<◌, ◌≡◌, refl, sym, ap, ◌∙◌, subst, inl, inr, Bool, true, false, ◌&&◌, List, [], ◌∷◌, Option,
  none, some, if◌then◌else◌, arith, length, Option-cases, of_branches,
}
use wi_fi_roaming_with_i_kua.Text.{Text, text_eq, is_empty, trim_space, has_prefix}
use wi_fi_roaming_with_i_kua.Text.Laws.{text_eq_iff}
use wi_fi_roaming_with_i_kua.Maps.{Map, lookup}
use wi_fi_roaming_with_i_kua.Maps.Laws.{lookup-put}
use wi_fi_roaming_with_i_kua.Database.{Faults, no_faults}
use wi_fi_roaming_with_i_kua.Numbers.{ℤ}
use wi_fi_roaming_with_i_kua.Secrets.{Cipher, IsCipher, Keyring, new_keyring, prefix}
use wi_fi_roaming_with_i_kua.Settings.{SettingRow, saved, loaded, text_at}
use wi_fi_roaming_with_i_kua.Settings.Store.{
  save, load_section, apply_secret_updates, updated_value,
}
use wi_fi_roaming_with_i_kua.Settings.Represents.{Plain, Represents}
use wi_fi_roaming_with_i_kua.Settings.Refinement.{
  DrawsNonces, IsUnmarked, override, save-Represents, load_section-Represents,
}
use wi_fi_roaming_with_i_kua.Settings.Forms.{at_value, lookup-apply_secret_updates}
use wi_fi_roaming_with_i_kua.Config.{Config, BootstrapConfig}
use wi_fi_roaming_with_i_kua.Config.Registry.{SettingDef, is_secret_setting, section_keys, sec_tls}
use wi_fi_roaming_with_i_kua.Listeners.{Host}
use wi_fi_roaming_with_i_kua.AdminSettings.{
  App, Answer, defines, allowed_entries, apply_listener_change, after_save, save_settings_section,
}

pub lookup-allowed_entries :
    (defs : List SettingDef) (k : Text) (m : Map Text)
    → lookup k (allowed_entries defs m) ≡ (if defines defs k then lookup k m else none)
unfolding allowed_entries lookup
lookup-allowed_entries defs k [] = ground arith
lookup-allowed_entries defs k ((j, v) ∷ m) = ground (
  arith,
  lookup-allowed_entries defs k m,
  lookup-put j k v (allowed_entries defs m),
  text_eq_iff j k,
)

-- The value that a submitted entry writes: a blank credential keeps the one that is set.
abbrev pub submitted_value : Text → Plain → Text → Text → Text
submitted_value section plain k v =
    if is_secret_setting section k && is_empty (trim_space v)
    then elim (plain section k) [ none ↦ v | some p ↦ p ]
    else v

-- The values that a page writes, by what was submitted.
abbrev pub IsMerged : Text → Plain → Map Text → Map Text → Type 0
IsMerged section plain submitted merged =
    (k : Text)
    → lookup k merged ≡ (
        if defines (section_keys section) k
        then at_value (submitted_value section plain k) (lookup k submitted)
        else none)

updates-IsMerged :
    (section : Text) (plain : Plain) (stored submitted : Map Text)
    → ((k : Text) → lookup k stored ≡ plain section k)
    → IsMerged section plain submitted (
        apply_secret_updates is_secret_setting section stored
          (allowed_entries (section_keys section) submitted))
unfolding updated_value
updates-IsMerged section plain stored submitted same k = ground (
  arith,
  same k,
  lookup-apply_secret_updates is_secret_setting section k stored
      (allowed_entries (section_keys section) submitted),
  lookup-allowed_entries (section_keys section) k submitted,
)

-- No credential of a map begins like an encrypted value.
unfoldable pub NoneMarked : Text → (Text → Option Text) → Type 0
NoneMarked section plain =
    (k v : Text)
    → is_secret_setting section k ≡ true
    → plain k ≡ some v
    → has_prefix v prefix ≡ false

merged-IsUnmarked :
    (section : Text) (plain : Plain) (submitted merged : Map Text)
    → NoneMarked section (λ k. lookup k submitted)
    → NoneMarked section (plain section)
    → IsMerged section plain submitted merged
    → IsUnmarked is_secret_setting section merged
unfolding IsUnmarked NoneMarked text_at has_prefix
merged-IsUnmarked section plain submitted merged free set h k secret =
    elim (Option-cases (lookup k submitted)) [
      | inl n ↦ ground (arith, h k, n, secret)
      | inr (v, s) ↦ elim (Option-cases (plain section k)) [
        | inl n ↦ ground (arith, h k, n, s, secret, free k v secret s)
        | inr (p, t) ↦ ground (arith, h k, t, s, secret, free k v secret s, set k p secret t)
      ]
    ]

module _ (c : Cipher) (material : Text) (parse_duration : Text → Option ℤ) (host_of : Text → Text)
    (discovers : Config → Bool) (boot : BootstrapConfig) where
  abbrev keyring : Keyring
  keyring = new_keyring c material

  rows-apply_listener_change :
      (host : Host) (now : ℕ) (prev : Config) (stored : Map Text) (a : App)
      → (apply_listener_change c keyring parse_duration host_of discovers boot host now prev stored
          a).0.rows
        ≡ a.rows
  unfolding apply_listener_change
  rows-apply_listener_change host now prev stored a = ground arith

  rows-after_save :
      (fails : Faults) (host : Host) (now : ℕ) (section client by : Text)
      (changed stored : Map Text) (prev : Config) (a : App)
      → (after_save c keyring parse_duration host_of discovers boot fails host now section client by
          changed stored prev a).0.rows
        ≡ a.rows
  unfolding after_save
  rows-after_save fails host now section client by changed stored prev a =
      of_branches (λ (r : App × Answer). r.0.rows ≡ a.rows) (text_eq section sec_tls)
        (λ _. rows-apply_listener_change host now prev stored _) (λ _. refl)

  -- What is left of a save once its section is loaded and written.
  save_done :
      (host : Host) (draws : Text → Option Text) (now : ℕ) (section client by : Text)
      (submitted stored : Map Text) (a : App) (after : List SettingRow)
      → 0 < length (allowed_entries (section_keys section) submitted)
      → load_section c keyring is_secret_setting false section a.rows ≡ loaded stored
      → save c keyring is_secret_setting no_faults draws now section
          (apply_secret_updates is_secret_setting section stored
            (allowed_entries (section_keys section) submitted))
          by
          a.rows
        ≡ (after, saved)
      → save_settings_section c keyring parse_duration host_of discovers boot no_faults host draws
          now section client by
          (some submitted)
          a
        ≡ after_save c keyring parse_duration host_of discovers boot no_faults host now section
            client by
            (allowed_entries (section_keys section) submitted)
            stored
            a.runtime.config
            (record a { rows = after })
  unfolding save_settings_section
  save_done host draws now section client by submitted stored a after some_keys l w =
      ground (arith, some_keys, l, w)

  -- Saving a page, with at least one setting of its section submitted, no credential that begins like
  -- an encrypted value and every statement working, leaves a table that stands for the map with the
  -- section's submitted settings written over it: a key that the section does not define is dropped,
  -- and a blank credential keeps the one that is set.
  pub save_settings_section-Represents :
      (host : Host) (draws : Text → Option Text) (now : ℕ) (section client by : Text)
      (submitted : Map Text) (a : App) (plain : Plain)
      → IsCipher c
      → DrawsNonces c draws
      → 0 < length (allowed_entries (section_keys section) submitted)
      → NoneMarked section (λ k. lookup k submitted)
      → NoneMarked section (plain section)
      → Represents c keyring is_secret_setting a.rows plain
      → (merged : Map Text) × IsMerged section plain submitted merged
        × Represents c keyring is_secret_setting
            (save_settings_section c keyring parse_duration host_of discovers boot no_faults host
              draws now section client by
              (some submitted)
              a).0.rows
            (override section merged plain)
  save_settings_section-Represents host draws now section client by submitted a plain h drawn
        some_keys free set r =
      let (stored, l, same) =
        load_section-Represents c material is_secret_setting section a.rows plain r in
      let merged =
        apply_secret_updates is_secret_setting section stored
          (allowed_entries (section_keys section) submitted) in
      let is_merged = updates-IsMerged section plain stored submitted same in
      let unmarked = merged-IsUnmarked section plain submitted merged free set is_merged in
      let (after, w, r') =
        save-Represents c material is_secret_setting draws now section by merged a.rows plain h
          drawn unmarked r in
      let e =
        ap (λ (p : App × Answer). p.0.rows)
          (save_done host draws now section client by submitted stored a after some_keys l w)
        ∙ rows-after_save no_faults host now section client by
            (allowed_entries (section_keys section) submitted) stored a.runtime.config
            (record a { rows = after }) in
      (
        merged,
        is_merged,
        subst (λ rows. Represents c keyring is_secret_setting rows (override section merged plain))
            (sym e) r',
      )
