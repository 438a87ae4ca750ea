-- ===== src/Settings/Refinement.antt =====
-- Saving and loading a section refine writing and reading a map from section and key to plain text.
use wi_fi_roaming_with_i_kua.Prelude.{
  ℕ, ◌≡◌, refl, ap, ◌∙◌, true, false, ◌&&◌, ◌||◌, List, [], ◌∷◌, Option, some, if◌then◌else◌, arith,
  length, Bool-cases, inl, inr,
}
use wi_fi_roaming_with_i_kua.Text.{Text, bytes, is_empty, text_eq, contains, has_prefix}
use wi_fi_roaming_with_i_kua.Text.Laws.{text_eq_iff}
use wi_fi_roaming_with_i_kua.Maps.{Map, lookup, has_key, keys}
use wi_fi_roaming_with_i_kua.Database.{no_faults}
use wi_fi_roaming_with_i_kua.Secrets.{Cipher, IsCipher, Keyring, ok, prefix, new_keyring}
use wi_fi_roaming_with_i_kua.Secrets.RoundTrip.{decrypt-encrypt}
use wi_fi_roaming_with_i_kua.Settings.{
  SettingRow, SecretKeys, upsert, upsert_all, insert_text, sort_texts, text_at, saved, loaded,
}
use wi_fi_roaming_with_i_kua.Settings.Store.{
  read_value, write_value, rows_to_write, write_rows, save, load_section, load_result,
}
use wi_fi_roaming_with_i_kua.Settings.Represents.{
  Plain, or_else, Represents, upsert-Represents, lookup-read_rows,
}

-- Sorting keeps the texts.
contains-insert_text :
    (k t : Text) (l : List Text) → contains k (insert_text t l) ≡ (text_eq t k || contains k l)
unfolding contains insert_text
contains-insert_text k t [] = refl
contains-insert_text k t (s ∷ l) = ground (arith, contains-insert_text k t l)

contains-sort_texts : (k : Text) (l : List Text) → contains k (sort_texts l) ≡ contains k l
unfolding contains sort_texts
contains-sort_texts k [] = refl
contains-sort_texts k (t ∷ l) =
    ground (arith, contains-insert_text k t (sort_texts l), contains-sort_texts k l)

contains-keys : (k : Text) (m : Map Text) → contains k (keys m) ≡ has_key k m
unfolding contains has_key lookup
contains-keys k [] = refl
contains-keys k ((j, v) ∷ m) = ground (arith, contains-keys k m)

-- The section's values written over the map.
abbrev pub override : Text → Map Text → Plain → Plain
override section values plain s k =
    if text_eq s section then or_else (lookup k values) (plain s k) else plain s k

-- The values of some keys written over the map.
abbrev override_keys : Text → Map Text → List Text → Plain → Plain
override_keys section values ks plain s k =
    if text_eq s section && contains k ks then some (text_at k values) else plain s k

override_keys-keys :
    (section : Text) (values : Map Text) (plain : Plain) (s k : Text)
    → override_keys section values (sort_texts (keys values)) plain s k
      ≡ override section values plain s k
unfolding has_key text_at
override_keys-keys section values plain s k =
    ground (arith, contains-sort_texts k (keys values), contains-keys k values)

-- Every nonce is drawn, with the size of a nonce.
unfoldable pub DrawsNonces : Cipher → (Text → Option Text) → Type 0
DrawsNonces c draws = (k : Text) → (n : Text) × (draws k ≡ some n) × (length n ≡ c.nonce_size)

-- No credential of the section begins like an encrypted value.
unfoldable pub IsUnmarked : SecretKeys → Text → Map Text → Type 0
IsUnmarked secrets section values =
    (k : Text) → secrets section k ≡ true → has_prefix (text_at k values) prefix ≡ false

module _ (c : Cipher) (material : Text) (secrets : SecretKeys) where
  abbrev keyring : Keyring
  keyring = new_keyring c material

  read-write :
      (draws : Text → Option Text) (section : Text) (values : Map Text) (k : Text)
      → IsCipher c
      → DrawsNonces c draws
      → IsUnmarked secrets section values
      → (v : Text) × (write_value c keyring secrets (draws k) section k (text_at k values) ≡ ok v)
        × (read_value c keyring secrets section k v ≡ ok (text_at k values))
  unfolding write_value read_value DrawsNonces IsUnmarked
  read-write draws section values k h drawn plain = elim (Bool-cases (secrets section k)) [
    | inl e ↦
        let (n, d, size) = drawn k in
        let (v, w, r, marked) =
          decrypt-encrypt c material n (text_at k values) h size (plain k e) in
        (v, ground (arith, e, d, w), ground (arith, e, r))
    | inr e ↦ (text_at k values, ground (arith, e), ground (arith, e))
  ]

  -- Writing some keys of a section.
  abbrev Writes :
      (Text → Option Text)
      → ℕ
      → Text
      → Text
      → Map Text
      → List Text
      → List SettingRow
      → Plain
      → Type 0
  Writes draws now by section values ks rows plain =
      (new : List SettingRow) × (rows_to_write c keyring secrets draws now by section values ks
        ≡ ok new)
      × Represents c keyring secrets (upsert_all new rows) (override_keys section values ks plain)

  Represents-override_keys :
      (section : Text) (values : Map Text) (k : Text) (ks : List Text) (rows : List SettingRow)
      (plain : Plain)
      → Represents c keyring secrets rows
          (override_keys section values ks (override_keys section values (k ∷ []) plain))
      → Represents c keyring secrets rows (override_keys section values (k ∷ ks) plain)
  unfolding contains
  Represents-override_keys section values k ks rows plain h = record {
    keyed = h.keyed;
    reads = λ s j. ground (arith, h.reads s j, text_eq_iff k j);
  }

  Writes-keys :
      (draws : Text → Option Text) (now : ℕ) (by section : Text) (values : Map Text)
      (ks : List Text) (rows : List SettingRow) (plain : Plain)
      → IsCipher c
      → DrawsNonces c draws
      → IsUnmarked secrets section values
      → Represents c keyring secrets rows plain
      → Writes draws now by section values ks rows plain
  unfolding rows_to_write upsert_all contains
  Writes-keys draws now by section values [] rows plain h drawn free r =
      ([], refl, record { keyed = r.keyed; reads = λ s j. ground (arith, r.reads s j) })
  Writes-keys draws now by section values (k ∷ ks) rows plain h drawn free r =
      let (v, w, reads) = read-write draws section values k h drawn free in
      let row : SettingRow = record {
        section = section;
        key = k;
        value = v;
        updated_at = now;
        updated_by = by;
      } in
      let one =
        upsert-Represents c keyring secrets row (text_at k values) rows plain
          (override_keys section values (k ∷ []) plain) r reads
          (λ s j. ground (arith, text_eq_iff s section, text_eq_iff section s, text_eq_iff k j)) in
      let (new, writes, all) =
        Writes-keys draws now by section values ks (upsert row rows)
          (override_keys section values (k ∷ []) plain) h drawn free one in
      (
        row ∷ new,
        ground (arith, w, writes),
        Represents-override_keys section values k ks (upsert_all new (upsert row rows)) plain all,
      )

  -- Without a fault the rows are written.
  write_rows-ok :
      (rows new : List SettingRow)
      → write_rows no_faults rows (ok new) ≡ (upsert_all new rows, saved)
  unfolding write_rows upsert_all
  write_rows-ok rows [] = refl
  write_rows-ok rows (r ∷ new) = refl

  Represents-override :
      (section : Text) (values : Map Text) (rows : List SettingRow) (plain : Plain)
      → Represents c keyring secrets rows
          (override_keys section values (sort_texts (keys values)) plain)
      → Represents c keyring secrets rows (override section values plain)
  Represents-override section values rows plain h = record {
    keyed = h.keyed;
    reads = λ s k. ground (arith, h.reads s k, override_keys-keys section values plain s k);
  }

  -- A save of a section whose credentials do not begin like an encrypted value, while the nonces are
  -- drawn and the database works, turns a table that stands for a map into one that stands for the
  -- map with the section's values written over it: every other key and section is as before.
  pub save-Represents :
      (draws : Text → Option Text) (now : ℕ) (section updated_by : Text) (values : Map Text)
      (rows : List SettingRow) (plain : Plain)
      → IsCipher c
      → DrawsNonces c draws
      → IsUnmarked secrets section values
      → Represents c keyring secrets rows plain
      → (after : List SettingRow) × (save c keyring secrets no_faults draws now section values
            updated_by rows
          ≡ (after, saved))
        × Represents c keyring secrets after (override section values plain)
  unfolding save
  save-Represents draws now section updated_by values rows plain h drawn free r =
      let by = if is_empty updated_by then bytes "system" else updated_by in
      let (new, e, all) =
        Writes-keys draws now by section values (sort_texts (keys values)) rows plain h drawn free
          r in
      (
        upsert_all new rows,
        ap (write_rows no_faults rows) e ∙ write_rows-ok rows new,
        Represents-override section values (upsert_all new rows) plain all,
      )

  -- A section loads as the map that the table stands for.
  pub load_section-Represents :
      (section : Text) (rows : List SettingRow) (plain : Plain)
      → Represents c keyring secrets rows plain
      → (m : Map Text) × (load_section c keyring secrets false section rows ≡ loaded m)
        × ((k : Text) → lookup k m ≡ plain section k)
  unfolding load_section load_result lookup
  load_section-Represents section rows plain r =
      let (m, e, looks) =
        lookup-read_rows c keyring secrets section rows (plain section) [] r.keyed
          (r.reads section) in
      (m, ap (load_result false) e, λ k. ground (arith, looks k))
