-- ===== src/Config/Saved.antt =====
-- From a saved section to the configuration that is built of the table.
use wi_fi_roaming_with_i_kua.Prelude.{
  ℕ, ◌≡◌, refl, Bool, true, false, List, [], ◌∷◌, Option, some, subst, if◌then◌else◌, arith,
}
use wi_fi_roaming_with_i_kua.Text.{Text, bytes, is_empty}
use wi_fi_roaming_with_i_kua.Text.Laws.{text_eq_iff}
use wi_fi_roaming_with_i_kua.Maps.{Map, lookup, keys}
use wi_fi_roaming_with_i_kua.Database.{Faults, no_faults}
use wi_fi_roaming_with_i_kua.Secrets.{Cipher, IsCipher, Keyring, Result, ok, failed, new_keyring}
use wi_fi_roaming_with_i_kua.Settings.{
  SettingRow, SecretKeys, upsert, upsert_all, sort_texts, saved, loaded,
}
use wi_fi_roaming_with_i_kua.Settings.Store.{rows_to_write, write_rows, save, load_all}
use wi_fi_roaming_with_i_kua.Settings.Represents.{Plain, Represents}
use wi_fi_roaming_with_i_kua.Settings.Refinement.{
  DrawsNonces, IsUnmarked, override, save-Represents,
}
use wi_fi_roaming_with_i_kua.Settings.Snapshot.{is_dotless, dotless_rows, load_all-Represents}
use wi_fi_roaming_with_i_kua.Config.Runtime.{string_value, set_value}

dotless_rows-upsert :
    (r : SettingRow) (rows : List SettingRow)
    → is_dotless r.section ≡ true
    → dotless_rows rows ≡ true
    → dotless_rows (upsert r rows) ≡ true
unfolding dotless_rows upsert
dotless_rows-upsert r [] d h = ground (arith, d)
dotless_rows-upsert r (q ∷ rows) d h = ground (arith, d, h, dotless_rows-upsert r rows d)

dotless_rows-upsert_all :
    (new rows : List SettingRow)
    → dotless_rows new ≡ true
    → dotless_rows rows ≡ true
    → dotless_rows (upsert_all new rows) ≡ true
unfolding dotless_rows upsert_all
dotless_rows-upsert_all [] rows d h = h
dotless_rows-upsert_all (r ∷ new) rows d h =
    dotless_rows-upsert_all new (upsert r rows) (ground (arith, d))
      (dotless_rows-upsert r rows (ground (arith, d)) h)

-- Whether the rows of a result have no section with a dot.
abbrev dotless_result : Result (List SettingRow) → Bool
dotless_result (failed f) = true
dotless_result (ok rows) = dotless_rows rows

dotless_rows-write_rows :
    (fails : Faults) (rows : List SettingRow) (new : Result (List SettingRow))
    → dotless_result new ≡ true
    → dotless_rows rows ≡ true
    → dotless_rows (write_rows fails rows new).0 ≡ true
unfolding write_rows
dotless_rows-write_rows fails rows (failed f) d h = h
dotless_rows-write_rows fails rows (ok []) d h = h
dotless_rows-write_rows fails rows (ok (r ∷ new)) d h =
    ground (arith, h, dotless_rows-upsert_all (r ∷ new) rows d h)

module _ (c : Cipher) (material : Text) (secrets : SecretKeys) where
  abbrev keyring : Keyring
  keyring = new_keyring c material

  dotless_written :
      (draws : Text → Option Text) (now : ℕ) (by section : Text) (values : Map Text)
      (ks : List Text)
      → is_dotless section ≡ true
      → dotless_result (rows_to_write c keyring secrets draws now by section values ks) ≡ true
  unfolding rows_to_write dotless_rows
  dotless_written draws now by section values [] d = refl
  dotless_written draws now by section values (k ∷ ks) d =
      ground (arith, d, dotless_written draws now by section values ks d)

  -- A save, whether it fails or not, leaves no section with a dot, if its own has none.
  pub dotless_rows-save :
      (fails : Faults) (draws : Text → Option Text) (now : ℕ) (section updated_by : Text)
      (values : Map Text) (rows : List SettingRow)
      → is_dotless section ≡ true
      → dotless_rows rows ≡ true
      → dotless_rows (save c keyring secrets fails draws now section values updated_by rows).0
        ≡ true
  unfolding save
  dotless_rows-save fails draws now section updated_by values rows d h =
      let by = if is_empty updated_by then bytes "system" else updated_by in
      dotless_rows-write_rows fails rows
        (rows_to_write c keyring secrets draws now by section values (sort_texts (keys values)))
        (dotless_written draws now by section values (sort_texts (keys values)) d) h

  -- A save over a table that represents a map, whose statements and whose draws of nonces work and
  -- in whose values no credential begins with the mark of an encrypted value, stores what the
  -- configuration reads when the settings are loaded again: the value of each key that was saved,
  -- or the default where the value is empty. The sections, the saved one among them, have no dot in
  -- their names.
  pub string_value-save :
      (draws : Text → Option Text) (now : ℕ) (section updated_by k v fallback : Text)
      (values : Map Text) (rows : List SettingRow) (plain : Plain)
      → IsCipher c
      → DrawsNonces c draws
      → IsUnmarked secrets section values
      → Represents c keyring secrets rows plain
      → dotless_rows rows ≡ true
      → is_dotless section ≡ true
      → lookup k values ≡ some v
      → (after : List SettingRow) × (m : Map Text) × (save c keyring secrets no_faults draws now
            section values updated_by rows
          ≡ (after, saved))
        × (load_all c keyring secrets false after ≡ loaded m)
        × (string_value m section k fallback ≡ (if is_empty v then fallback else v))
  unfolding string_value set_value
  string_value-save draws now section updated_by k v fallback values rows plain h drawn free r
        dotless d e =
      let (after, done, r') =
        save-Represents c material secrets draws now section updated_by values rows plain h drawn
          free r in
      let kept = dotless_rows-save no_faults draws now section updated_by values rows d dotless in
      let (m, loads, looks) =
        load_all-Represents c keyring secrets after (override section values plain)
          (subst (λ p. dotless_rows p.0 ≡ true) done kept) r' in
      (after, m, done, loads, ground (arith, looks section k d, e, text_eq_iff section section))
