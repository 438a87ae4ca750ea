-- ===== src/Tests/Stored.antt =====
-- The settings at concrete inputs, over a cipher that does not hide anything.
use wi_fi_roaming_with_i_kua.Prelude.{
  ◌≡◌, ◌<◌, refl, Bool, true, false, List, [], ◌∷◌, Option, none, some, length, arith,
}
use wi_fi_roaming_with_i_kua.Text.{Text, bytes, text_eq, is_empty, has_prefix}
use wi_fi_roaming_with_i_kua.Text.Laws.{text_eq_iff}
use wi_fi_roaming_with_i_kua.Maps.{Map, lookup, put}
use wi_fi_roaming_with_i_kua.Database.{no_faults}
use wi_fi_roaming_with_i_kua.Numbers.{ℤ, pos}
use wi_fi_roaming_with_i_kua.Secrets.{Cipher, IsCipher, Keyring, new_keyring, encrypt, decrypt, ok}
use wi_fi_roaming_with_i_kua.Secrets.RoundTrip.{is_stored_right, decrypt-encrypt}
use wi_fi_roaming_with_i_kua.Settings.{SettingRow, saved, loaded, find_setting, has_keys}
use wi_fi_roaming_with_i_kua.Settings.Store.{read_value, save, load_all}
use wi_fi_roaming_with_i_kua.Settings.Represents.{IsKeyed, Plain, Represents}
use wi_fi_roaming_with_i_kua.Settings.Refinement.{DrawsNonces, IsUnmarked, override}
use wi_fi_roaming_with_i_kua.Settings.Snapshot.{dotless_rows, is_dotless}
use wi_fi_roaming_with_i_kua.Config.{Config, BootstrapConfig}
use wi_fi_roaming_with_i_kua.Config.Registry.{
  is_secret_setting, section_keys, sec_tls, setting_registry,
}
use wi_fi_roaming_with_i_kua.Config.Runtime.{runtime_config, string_value}
use wi_fi_roaming_with_i_kua.Config.Saved.{string_value-save}
use wi_fi_roaming_with_i_kua.Listeners.{Host, new_manager, no_pair}
use wi_fi_roaming_with_i_kua.ListenerCommit.{new_listener_commit}
use wi_fi_roaming_with_i_kua.EventLog.{empty_table}
use wi_fi_roaming_with_i_kua.AdminSettings.{
  App, allowed_entries, defines, save_settings_section, restore_of, roll_back,
}
use wi_fi_roaming_with_i_kua.AdminSettings.Saves.{
  NoneMarked, IsMerged, save_settings_section-Represents,
}
use wi_fi_roaming_with_i_kua.AdminSettings.RollsBack.{
  IsRestored, OnlyDefined, roll_back-IsRestored, no_tls_credential,
}

-- 32 bytes.
abbrev key_bytes : Text
key_bytes = bytes "0123456789abcdef0123456789abcdef"

abbrev pub clear : Cipher
clear = record {
  sha256 = λ m. key_bytes;
  key_ok = λ k. true;
  nonce_size = 1;
  gcm_seal = λ k n m. m;
  gcm_open = λ k n m. some m;
  encode64 = λ m. m;
  decode64 = λ m. some m;
}

clear-IsCipher : IsCipher clear
clear-IsCipher = record {
  sum_size = λ m. refl;
  key_32 = λ k e. refl;
  open-seal = λ k n m. refl;
  decode-encode = λ m. refl;
}

abbrev material : Text
material = bytes "k"

abbrev pub keyring : Keyring
keyring = new_keyring clear material

decrypt-encrypt_example :
    (stored : Text) × (encrypt clear (some (7 ∷ [])) keyring (bytes "pw") ≡ ok stored)
    × (decrypt clear keyring stored ≡ ok (bytes "pw"))
    × (is_stored_right keyring (bytes "pw") stored ≡ true)
unfolding has_prefix
decrypt-encrypt_example =
    decrypt-encrypt clear material (7 ∷ []) (bytes "pw") clear-IsCipher refl refl

abbrev draws : Text → Option Text
draws k = some (7 ∷ [])

draws-DrawsNonces : DrawsNonces clear draws
unfolding DrawsNonces
draws-DrawsNonces k = (7 ∷ [], refl, refl)

abbrev nothing : Plain
nothing s k = none

empty-Represents : Represents clear keyring is_secret_setting [] nothing
unfolding IsKeyed find_setting
empty-Represents = record { keyed = tt; reads = λ s k. refl }

abbrev no_credentials : Text → Text → Bool
no_credentials s k = false

plain-Represents : Represents clear keyring no_credentials [] nothing
unfolding IsKeyed find_setting
plain-Represents = record { keyed = tt; reads = λ s k. refl }

abbrev brand : Map Text
brand = (bytes "name", bytes "Cafe") ∷ []

brand-IsUnmarked : IsUnmarked no_credentials (bytes "brand") brand
unfolding IsUnmarked
brand-IsUnmarked k e = absurd (ground (arith, e))

string_value-save_example :
    (after : List SettingRow) × (m : Map Text) × (save clear keyring no_credentials no_faults draws
        5
        (bytes "brand")
        brand
        (bytes "ann")
        []
      ≡ (after, saved))
    × (load_all clear keyring no_credentials false after ≡ loaded m)
    × (string_value m (bytes "brand") (bytes "name") (bytes "Hub") ≡ bytes "Cafe")
unfolding is_dotless dotless_rows lookup text_eq is_empty
string_value-save_example =
    string_value-save clear material no_credentials draws 5 (bytes "brand") (bytes "ann")
      (bytes "name") (bytes "Cafe") (bytes "Hub") brand [] nothing clear-IsCipher draws-DrawsNonces
      brand-IsUnmarked plain-Represents refl refl refl

abbrev pub parse_duration : Text → Option ℤ
parse_duration s = none

abbrev pub host_of : Text → Text
host_of url = bytes "wifi.example"

abbrev pub discovers : Config → Bool
discovers c = true

abbrev pub boot : BootstrapConfig
boot = record {
  listen_addr = bytes "127.0.0.1:28080";
  session_secret = key_bytes;
  encryption_key = material;
  data_dir = bytes "/data";
  db_dsn = [];
  db_max_open_conns = pos 0;
  trust_proxy = true;
}

abbrev pub behind_proxy : Config
behind_proxy = runtime_config parse_duration host_of boot []

abbrev pub app : App
app = record {
  rows = [];
  runtime = record { config = behind_proxy; oidc = false };
  listeners = new_manager;
  commit = new_listener_commit;
  restores = [];
  events = empty_table;
}

abbrev pub machine : Host
machine = record { can_bind = λ a. true; stored = λ d. no_pair }

abbrev tls_form : Map Text
tls_form = (bytes "domain", bytes "wifi.example") ∷ (bytes "other", bytes "x") ∷ []

some_entry : 0 < length (allowed_entries (section_keys sec_tls) tls_form)
unfolding allowed_entries defines section_keys setting_registry text_eq put
some_entry = omega arith

form-NoneMarked : NoneMarked sec_tls (λ k. lookup k tls_form)
unfolding NoneMarked
form-NoneMarked k v secret e = absurd (ground (arith, secret, no_tls_credential k))

nothing-NoneMarked : NoneMarked sec_tls (nothing sec_tls)
unfolding NoneMarked
nothing-NoneMarked k v secret e = absurd (ground (arith, e))

save_settings_section-Represents_example :
    (merged : Map Text) × IsMerged sec_tls nothing tls_form merged
    × Represents clear keyring is_secret_setting
        (save_settings_section clear keyring parse_duration host_of discovers boot no_faults machine
          draws 5 sec_tls
          (bytes "10.0.0.2")
          (bytes "ann")
          (some tls_form)
          app).0.rows
        (override sec_tls merged nothing)
save_settings_section-Represents_example =
    save_settings_section-Represents clear material parse_duration host_of discovers boot machine
      draws 5 sec_tls (bytes "10.0.0.2") (bytes "ann") tls_form app nothing clear-IsCipher
      draws-DrawsNonces some_entry form-NoneMarked nothing-NoneMarked empty-Represents

-- Before the rollback the domain was written.
abbrev written : Map Text
written = (bytes "domain", bytes "wifi.example") ∷ []

abbrev domain_row : SettingRow
domain_row = record {
  section = sec_tls;
  key = bytes "domain";
  value = bytes "wifi.example";
  updated_at = 5;
  updated_by = bytes "ann";
}

abbrev changed_app : App
changed_app = record app { rows = domain_row ∷ [] }

changed-Represents :
    Represents clear keyring is_secret_setting (domain_row ∷ []) (override sec_tls written nothing)
unfolding IsKeyed find_setting read_value has_keys lookup
changed-Represents = record {
  keyed = (refl, tt);
  reads = λ s k. ground (
    arith,
    no_tls_credential k,
    text_eq_iff sec_tls s,
    text_eq_iff s sec_tls,
    text_eq_iff (bytes "domain") k,
  );
}

domain_defined : defines (section_keys sec_tls) (bytes "domain") ≡ true
unfolding defines section_keys setting_registry text_eq
domain_defined = refl

written-OnlyDefined : OnlyDefined written
unfolding OnlyDefined lookup
written-OnlyDefined k e = ground (arith, e, text_eq_iff (bytes "domain") k, domain_defined)

roll_back-IsRestored_example :
    IsRestored clear material parse_duration host_of discovers boot machine nothing new_manager
      (roll_back clear keyring parse_duration host_of discovers boot no_faults machine draws 9
        (bytes "ann")
        (restore_of [])
        changed_app).0
unfolding lookup dotless_rows is_dotless
roll_back-IsRestored_example =
    roll_back-IsRestored clear material parse_duration host_of discovers boot machine draws 9
      (bytes "ann") [] written nothing changed_app clear-IsCipher draws-DrawsNonces (λ k. refl)
      written-OnlyDefined refl changed-Represents
