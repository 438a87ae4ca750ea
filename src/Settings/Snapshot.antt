-- ===== src/Settings/Snapshot.antt =====
-- Loading the whole table, by the joined names of section and key.
use wi_fi_roaming_with_i_kua.Prelude.{
  ◌≡◌, refl, ap, inl, inr, Bool, true, false, ◌&&◌, not, ◌==◌, List, [], ◌∷◌, none, some,
  if◌then◌else◌, arith, Option-cases,
}
use wi_fi_roaming_with_i_kua.Text.{Text, text_eq}
use wi_fi_roaming_with_i_kua.Text.Laws.{text_eq_iff}
use wi_fi_roaming_with_i_kua.Maps.{Map, lookup, put}
use wi_fi_roaming_with_i_kua.Maps.Laws.{lookup-put}
use wi_fi_roaming_with_i_kua.Secrets.{Cipher, Keyring, ok}
use wi_fi_roaming_with_i_kua.Settings.{SettingRow, SecretKeys, has_keys, find_setting, loaded}
use wi_fi_roaming_with_i_kua.Settings.Store.{key_name, read_value, read_rows, load_all, load_result}
use wi_fi_roaming_with_i_kua.Settings.Represents.{IsKeyed, Plain, or_else, as_read, Represents}

-- A section's name has no dot.
unfoldable pub is_dotless : Text → Bool
is_dotless [] = true
is_dotless (c ∷ s) = not (c == 46) && is_dotless s

-- The names of sections without a dot are joined to keys without confusion.
pub text_eq-key_name :
    (s t k j : Text)
    → is_dotless s ≡ true
    → is_dotless t ≡ true
    → text_eq (key_name s k) (key_name t j) ≡ (text_eq s t && text_eq k j)
unfolding text_eq key_name is_dotless
text_eq-key_name [] [] k j d e = refl
text_eq-key_name [] (b ∷ t) k j d e = ground (arith, e)
text_eq-key_name (a ∷ s) [] k j d e = ground (arith, d)
text_eq-key_name (a ∷ s) (b ∷ t) k j d e = ground (arith, d, e, text_eq-key_name s t k j)

unfoldable pub dotless_rows : List SettingRow → Bool
dotless_rows [] = true
dotless_rows (r ∷ rows) = is_dotless r.section && dotless_rows rows

module _ (c : Cipher) (keyring : Keyring) (secrets : SecretKeys) where
  abbrev ReadsPlain : List SettingRow → Plain → Type 0
  ReadsPlain rows plain =
      (s k : Text)
      → as_read (read_value c keyring secrets s k) (find_setting s k rows) ≡ as_read ok (plain s k)

  abbrev without_keys : SettingRow → Plain → Plain
  without_keys r plain s k = if has_keys s k r then none else plain s k

  read_head :
      (r : SettingRow) (rows : List SettingRow) (plain : Plain)
      → ReadsPlain (r ∷ rows) plain
      → (p : Text) × (plain r.section r.key ≡ some p)
        × (read_value c keyring secrets r.section r.key r.value ≡ ok p)
  unfolding find_setting has_keys
  read_head r rows plain reads = elim (Option-cases (plain r.section r.key)) [
    | inl n ↦ absurd (
        ground (
          arith,
          n,
          reads r.section r.key,
          text_eq_iff r.key r.key,
          text_eq_iff r.section r.section,
        ))
    | inr (p, s) ↦ (
      p,
      s,
      ground (
        arith,
        s,
        reads r.section r.key,
        text_eq_iff r.key r.key,
        text_eq_iff r.section r.section,
      ),
    )
  ]

  reads_tail :
      (r : SettingRow) (rows : List SettingRow) (plain : Plain)
      → ReadsPlain (r ∷ rows) plain
      → find_setting r.section r.key rows ≡ none
      → ReadsPlain rows (without_keys r plain)
  unfolding find_setting has_keys
  reads_tail r rows plain reads fresh s k =
      ground (arith, reads s k, fresh, text_eq_iff r.key k, text_eq_iff r.section s)

  -- What the loop of a load of the whole table gives.
  abbrev LoadsAll : List SettingRow → Plain → Map Text → Type 0
  LoadsAll rows plain out =
      (m : Map Text) × (read_rows c keyring secrets (λ r. key_name r.section r.key) rows out ≡ ok m)
      × ((s k : Text)
          → is_dotless s ≡ true
          → lookup (key_name s k) m ≡ or_else (plain s k) (lookup (key_name s k) out))

  LoadsAll-head :
      (r : SettingRow) (rows : List SettingRow) (plain : Plain) (p : Text) (out : Map Text)
      → is_dotless r.section ≡ true
      → plain r.section r.key ≡ some p
      → read_value c keyring secrets r.section r.key r.value ≡ ok p
      → LoadsAll rows (without_keys r plain) (put (key_name r.section r.key) p out)
      → LoadsAll (r ∷ rows) plain out
  unfolding read_rows has_keys
  LoadsAll-head r rows plain p out dotless e read (m, loads, looks) = (
    m,
    ground (arith, read, loads),
    λ s k d. ground (
      arith,
      looks s k d,
      e,
      lookup-put (key_name r.section r.key) (key_name s k) p out,
      text_eq-key_name r.section s r.key k dotless d,
      text_eq_iff r.key k,
      text_eq_iff r.section s,
    ),
  )

  lookup-read_all :
      (rows : List SettingRow) (plain : Plain) (out : Map Text)
      → IsKeyed rows
      → dotless_rows rows ≡ true
      → ReadsPlain rows plain
      → LoadsAll rows plain out
  unfolding read_rows find_setting IsKeyed dotless_rows
  lookup-read_all [] plain out h d reads = (out, refl, λ s k e. ground (arith, reads s k))
  lookup-read_all (r ∷ rows) plain out h d reads =
      let (p, e, read) = read_head r rows plain reads in
      LoadsAll-head r rows plain p out (ground (arith, d)) e read (
        lookup-read_all rows (without_keys r plain) (put (key_name r.section r.key) p out) h.1
          (ground (arith, d)) (reads_tail r rows plain reads h.0))

  -- The whole table loads as the map that it stands for, under the joined names, if no section in it
  -- has a dot in its name.
  pub load_all-Represents :
      (rows : List SettingRow) (plain : Plain)
      → dotless_rows rows ≡ true
      → Represents c keyring secrets rows plain
      → (m : Map Text) × (load_all c keyring secrets false rows ≡ loaded m)
        × ((s k : Text) → is_dotless s ≡ true → lookup (key_name s k) m ≡ plain s k)
  unfolding load_all load_result lookup
  load_all-Represents rows plain d r =
      let (m, e, looks) = lookup-read_all rows plain [] r.keyed d r.reads in
      (m, ap (load_result false) e, λ s k sd. ground (arith, looks s k sd))
