-- ===== src/Settings.antt =====
-- portal/internal/settings/settings.go: the store behind the settings pages, over the table of
-- dbstore/models.go. The keyring and the test of what is a credential are parameters, as in `New`.
-- The nonce drawn for a value is given by the value's key. Sizes of columns are not modelled.
pub mod Store
pub mod Represents
pub mod Refinement
pub mod Snapshot
pub mod Forms
use wi_fi_roaming_with_i_kua.Prelude.{
  ℕ, Bool, true, false, ◌&&◌, List, [], ◌∷◌, Option, none, some, if◌then◌else◌,
}
use wi_fi_roaming_with_i_kua.Text.{Text, text_eq, text_ltb}
use wi_fi_roaming_with_i_kua.Maps.{Map, lookup}
use wi_fi_roaming_with_i_kua.Secrets.{Failure}

-- Setting
pub record SettingRow : Type 0 where
  pub section : Text
  pub key : Text
  pub value : Text
  pub updated_at : ℕ
  pub updated_by : Text

-- SecretKeys
abbrev pub SecretKeys : Type 0
SecretKeys = Text → Text → Bool

pub data SaveResult : Type 0 where
  saved : SaveResult
  not_encrypted : Failure → SaveResult
  not_written : SaveResult

pub data LoadResult : Type 0 where
  loaded : Map Text → LoadResult
  unreadable : Failure → LoadResult
  not_loaded : LoadResult

-- Whether a row has the primary key.
unfoldable pub has_keys : Text → Text → SettingRow → Bool
has_keys section key r = text_eq r.section section && text_eq r.key key

-- The value stored under a primary key.
unfoldable pub find_setting : Text → Text → List SettingRow → Option Text
unfolding has_keys
find_setting section key [] = none
find_setting section key (r ∷ rows) =
    if has_keys section key r then some r.value else find_setting section key rows

-- ON CONFLICT (section, key) DO UPDATE of one row.
unfoldable pub upsert : SettingRow → List SettingRow → List SettingRow
upsert r [] = r ∷ []
upsert r (q ∷ rows) =
    if has_keys r.section r.key q
    then record q { value = r.value; updated_at = r.updated_at; updated_by = r.updated_by } ∷ rows
    else q ∷ upsert r rows

unfoldable pub upsert_all : List SettingRow → List SettingRow → List SettingRow
upsert_all [] rows = rows
upsert_all (r ∷ more) rows = upsert_all more (upsert r rows)

-- sort.Strings
unfoldable pub insert_text : Text → List Text → List Text
insert_text t [] = t ∷ []
insert_text t (s ∷ l) = if text_ltb s t then s ∷ insert_text t l else t ∷ s ∷ l

unfoldable pub sort_texts : List Text → List Text
sort_texts [] = []
sort_texts (t ∷ l) = insert_text t (sort_texts l)

-- `m[k]`, empty where the key is missing.
unfoldable pub text_at : Text → Map Text → Text
text_at k m = elim (lookup k m) [ none ↦ [] | some v ↦ v ]
