-- ===== src/Settings/Store.antt =====
-- portal/internal/settings/settings.go: what the store loads and saves.
use wi_fi_roaming_with_i_kua.Prelude.{
  ℕ, Bool, ◌&&◌, ◌++◌, not, List, [], ◌∷◌, Option, none, some, select, if◌then◌else◌,
}
use wi_fi_roaming_with_i_kua.Text.{Text, bytes, text_eq, is_empty, trim_space}
use wi_fi_roaming_with_i_kua.Maps.{Map, lookup, put, keys}
use wi_fi_roaming_with_i_kua.Database.{Faults}
use wi_fi_roaming_with_i_kua.Secrets.{Cipher, Keyring, Result, ok, failed, encrypt, decrypt}
use wi_fi_roaming_with_i_kua.Settings.{
  SettingRow, SecretKeys, SaveResult, saved, not_encrypted, not_written, LoadResult, loaded,
  unreadable, not_loaded, upsert_all, sort_texts, text_at,
}

-- Key
unfoldable pub key_name : Text → Text → Text
key_name section key = section ++ bytes "." ++ key

unfoldable pub load_result : Bool → Result (Map Text) → LoadResult
load_result query_fails (ok m) = if query_fails then not_loaded else loaded m
load_result query_fails (failed f) = if query_fails then not_loaded else unreadable f

-- The transaction: the statement and the commit may fail.
unfoldable pub write_rows :
    Faults → List SettingRow → Result (List SettingRow) → List SettingRow × SaveResult
write_rows fails rows (failed f) = (rows, not_encrypted f)
write_rows fails rows (ok []) = (rows, saved)
write_rows fails rows (ok (r ∷ new)) =
    if fails 0
    then (rows, not_written)
    else if fails 1
    then (rows, not_written)
    else (upsert_all (r ∷ new) rows, saved)

module _ (c : Cipher) (keyring : Keyring) (secrets : SecretKeys) where
  -- The plain text of a stored value.
  unfoldable pub read_value : Text → Text → Text → Result Text
  read_value section key value = if secrets section key then decrypt c keyring value else ok value

  -- The form in which a value is stored.
  unfoldable pub write_value : Option Text → Text → Text → Text → Result Text
  write_value draw section key value =
      if secrets section key then encrypt c draw keyring value else ok value

  -- The loop of the loads.
  unfoldable pub read_rows : (SettingRow → Text) → List SettingRow → Map Text → Result (Map Text)
  read_rows name [] out = ok out
  read_rows name (r ∷ rows) out = elim (read_value r.section r.key r.value) [
    | failed f ↦ failed f
    | ok v ↦ read_rows name rows (put (name r) v out)
  ]

  -- LoadAll
  unfoldable pub load_all : Bool → List SettingRow → LoadResult
  load_all query_fails rows =
      load_result query_fails (read_rows (λ r. key_name r.section r.key) rows [])

  -- LoadSection
  unfoldable pub load_section : Bool → Text → List SettingRow → LoadResult
  load_section query_fails section rows =
      load_result query_fails
        (read_rows (λ r. r.key) (select (λ r. text_eq r.section section) rows) [])

  -- The rows of a save, in the order of their keys.
  unfoldable pub rows_to_write :
      (Text → Option Text) → ℕ → Text → Text → Map Text → List Text → Result (List SettingRow)
  rows_to_write draws now by section values [] = ok []
  rows_to_write draws now by section values (k ∷ ks) =
      let rest = rows_to_write draws now by section values ks in
      elim (write_value (draws k) section k (text_at k values)) [
        | failed f ↦ failed f
        | ok v ↦ elim rest [
          | failed f ↦ failed f
          | ok rows ↦ ok (
              record { section = section; key = k; value = v; updated_at = now; updated_by = by }
              ∷ rows)
        ]
      ]

  -- Save
  unfoldable pub save :
      Faults
      → (Text → Option Text)
      → ℕ
      → Text
      → Map Text
      → Text
      → List SettingRow
      → List SettingRow × SaveResult
  save fails draws now section values updated_by rows =
      let by = if is_empty updated_by then bytes "system" else updated_by in
      write_rows fails rows (rows_to_write draws now by section values (sort_texts (keys values)))

  -- SetOne
  unfoldable pub set_one :
      Faults
      → (Text → Option Text)
      → ℕ
      → Text
      → Text
      → Text
      → Text
      → List SettingRow
      → List SettingRow × SaveResult
  set_one fails draws now section key value updated_by rows =
      save fails draws now section ((key, value) ∷ []) updated_by rows

-- Redact, the fields.
unfoldable pub redact_fields : SecretKeys → Text → Map Text → Map Text
redact_fields secrets section [] = []
redact_fields secrets section ((k, v) ∷ m) =
    let rest = redact_fields secrets section m in if secrets section k then rest else put k v rest

-- Redact, which credentials are set.
unfoldable pub redact_present : SecretKeys → Text → Map Text → Map Bool
redact_present secrets section [] = []
redact_present secrets section ((k, v) ∷ m) =
    let rest = redact_present secrets section m in
    if secrets section k then put k (not (is_empty v)) rest else rest

-- ApplySecretUpdates, of one entry.
unfoldable pub updated_value : SecretKeys → Text → Map Text → Text → Text → Text
updated_value secrets section stored k v =
    if secrets section k && is_empty (trim_space v)
    then elim (lookup k stored) [ none ↦ v | some prev ↦ prev ]
    else v

-- ApplySecretUpdates
unfoldable pub apply_secret_updates : SecretKeys → Text → Map Text → Map Text → Map Text
apply_secret_updates secrets section stored [] = []
apply_secret_updates secrets section stored ((k, v) ∷ m) =
    put k (updated_value secrets section stored k v) (apply_secret_updates secrets section stored m)
