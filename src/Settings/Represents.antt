-- ===== src/Settings/Represents.antt =====
-- The table as a map from section and key to plain text: what stands in it, and writing to it.
use wi_fi_roaming_with_i_kua.Prelude.{
  ◌≡◌, refl, true, false, ◌&&◌, List, [], ◌∷◌, Option, none, some, if◌then◌else◌, arith, select,
  Bool-cases, Option-cases, inl, inr, of_branches,
}
use wi_fi_roaming_with_i_kua.Text.{Text, text_eq}
use wi_fi_roaming_with_i_kua.Text.Laws.{text_eq_iff}
use wi_fi_roaming_with_i_kua.Maps.{Map, lookup, put}
use wi_fi_roaming_with_i_kua.Maps.Laws.{lookup-put}
use wi_fi_roaming_with_i_kua.Secrets.{Cipher, Keyring, Result, ok}
use wi_fi_roaming_with_i_kua.Settings.{SettingRow, SecretKeys, has_keys, find_setting, upsert}
use wi_fi_roaming_with_i_kua.Settings.Store.{read_value, read_rows}

-- The primary key is a key.
unfoldable pub IsKeyed : List SettingRow → Type 0
IsKeyed [] = Unit {0}
IsKeyed (r ∷ rows) = (find_setting r.section r.key rows ≡ none) × IsKeyed rows

-- A plain text for each section and key that is set.
abbrev pub Plain : Type 0
Plain = Text → Text → Option Text

abbrev pub or_else : Option Text → Option Text → Option Text
or_else none b = b
or_else (some a) b = some a

find_setting-upsert :
    (r : SettingRow) (section key : Text) (rows : List SettingRow)
    → find_setting section key (upsert r rows) ≡ (
        if text_eq r.section section && text_eq r.key key
        then some r.value
        else find_setting section key rows)
unfolding find_setting upsert has_keys
find_setting-upsert r section key [] = refl
find_setting-upsert r section key (q ∷ rows) = ground (
  arith,
  find_setting-upsert r section key rows,
  text_eq_iff r.section section,
  text_eq_iff r.key key,
  text_eq_iff q.section section,
  text_eq_iff q.key key,
  text_eq_iff q.section r.section,
  text_eq_iff q.key r.key,
)

find_setting-upsert_ne :
    (r q : SettingRow) (rows : List SettingRow)
    → has_keys r.section r.key q ≡ false
    → find_setting q.section q.key rows ≡ none
    → find_setting q.section q.key (upsert r rows) ≡ none
unfolding has_keys
find_setting-upsert_ne r q rows e h = ground (
  arith,
  find_setting-upsert r q.section q.key rows,
  text_eq_iff r.section q.section,
  text_eq_iff r.key q.key,
  text_eq_iff q.section r.section,
  text_eq_iff q.key r.key,
)

pub upsert-IsKeyed :
    (r : SettingRow) (rows : List SettingRow) → IsKeyed rows → IsKeyed (upsert r rows)
unfolding IsKeyed upsert find_setting
upsert-IsKeyed r [] h = (refl, tt)
upsert-IsKeyed r (q ∷ rows) h =
    of_branches IsKeyed (has_keys r.section r.key q) (λ e. (h.0, h.1))
      (λ e. (find_setting-upsert_ne r q rows e h.0, upsert-IsKeyed r rows h.1))

-- Stored values as the plain texts they decrypt to, and plain texts likewise.
abbrev pub as_read {ℓ} : {A : Type ℓ} → (Text → Result A) → Option Text → Option (Result A)
as_read f none = none
as_read f (some v) = some (f v)

module _ (c : Cipher) (keyring : Keyring) (secrets : SecretKeys) where
  -- The table stands for the map: what is stored decrypts to the plain text.
  pub record Represents (rows : List SettingRow) (plain : Plain) : Type 0 where
    pub keyed : IsKeyed rows
    pub reads :
        (section key : Text)
        → as_read (read_value c keyring secrets section key) (find_setting section key rows)
          ≡ as_read ok (plain section key)

  pub upsert-Represents :
      (r : SettingRow) (p : Text) (rows : List SettingRow) (plain after : Plain)
      → Represents rows plain
      → read_value c keyring secrets r.section r.key r.value ≡ ok p
      → ((section key : Text)
          → after section key ≡ (
              if text_eq r.section section && text_eq r.key key then some p else plain section key))
      → Represents (upsert r rows) after
  upsert-Represents r p rows plain after h e same = record {
    keyed = upsert-IsKeyed r rows h.keyed;
    reads = λ section key. ground (
      arith,
      find_setting-upsert r section key rows,
      h.reads section key,
      same section key,
      e,
      text_eq_iff r.section section,
      text_eq_iff r.key key,
    );
  }

  -- The plain texts of a section's keys.
  abbrev ReadsAll : Text → List SettingRow → (Text → Option Text) → Type 0
  ReadsAll section rows plain =
      (key : Text)
      → as_read (read_value c keyring secrets section key) (find_setting section key rows)
        ≡ as_read ok (plain key)

  head_read :
      (section : Text) (r : SettingRow) (rows : List SettingRow) (plain : Text → Option Text)
      → ReadsAll section (r ∷ rows) plain
      → text_eq r.section section ≡ true
      → (p : Text) × (plain r.key ≡ some p)
        × (read_value c keyring secrets r.section r.key r.value ≡ ok p)
  unfolding find_setting has_keys
  head_read section r rows plain reads e = elim (Option-cases (plain r.key)) [
    | inl n ↦
        absurd (
          ground (arith, n, reads r.key, e, text_eq_iff r.key r.key, text_eq_iff r.section section))
    | inr (p, s) ↦ (
      p,
      s,
      ground (arith, s, reads r.key, e, text_eq_iff r.key r.key, text_eq_iff r.section section),
    )
  ]

  -- The keys that the head of the table leaves to the rest.
  abbrev without : Text → (Text → Option Text) → Text → Option Text
  without k plain key = if text_eq k key then none else plain key

  tail_same :
      (section : Text) (r : SettingRow) (rows : List SettingRow) (plain : Text → Option Text)
      → ReadsAll section (r ∷ rows) plain
      → find_setting r.section r.key rows ≡ none
      → text_eq r.section section ≡ true
      → ReadsAll section rows (without r.key plain)
  unfolding find_setting has_keys
  tail_same section r rows plain reads fresh e key =
      ground (arith, reads key, fresh, e, text_eq_iff r.key key, text_eq_iff r.section section)

  tail_other :
      (section : Text) (r : SettingRow) (rows : List SettingRow) (plain : Text → Option Text)
      → ReadsAll section (r ∷ rows) plain
      → text_eq r.section section ≡ false
      → ReadsAll section rows plain
  unfolding find_setting has_keys
  tail_other section r rows plain reads e key = ground (arith, reads key, e)

  -- What the loop of a load gives.
  abbrev Loads : Text → List SettingRow → (Text → Option Text) → Map Text → Type 0
  Loads section rows plain out =
      (m : Map Text) × (read_rows c keyring secrets (λ r. r.key)
          (select (λ r. text_eq r.section section) rows) out
        ≡ ok m)
      × ((key : Text) → lookup key m ≡ or_else (plain key) (lookup key out))

  Loads-head :
      (section : Text) (r : SettingRow) (rows : List SettingRow) (plain : Text → Option Text)
      (p : Text) (out : Map Text)
      → text_eq r.section section ≡ true
      → plain r.key ≡ some p
      → read_value c keyring secrets r.section r.key r.value ≡ ok p
      → Loads section rows (without r.key plain) (put r.key p out)
      → Loads section (r ∷ rows) plain out
  unfolding read_rows
  Loads-head section r rows plain p out e s read (m, loads, looks) = (
    m,
    ground (arith, e, read, loads),
    λ key. ground (arith, looks key, lookup-put r.key key p out, s, text_eq_iff r.key key),
  )

  Loads-other :
      (section : Text) (r : SettingRow) (rows : List SettingRow) (plain : Text → Option Text)
      (out : Map Text)
      → text_eq r.section section ≡ false
      → Loads section rows plain out
      → Loads section (r ∷ rows) plain out
  unfolding read_rows
  Loads-other section r rows plain out e (m, loads, looks) = (m, ground (arith, e, loads), looks)

  pub lookup-read_rows :
      (section : Text) (rows : List SettingRow) (plain : Text → Option Text) (out : Map Text)
      → IsKeyed rows
      → ReadsAll section rows plain
      → Loads section rows plain out
  unfolding read_rows find_setting IsKeyed
  lookup-read_rows section [] plain out h reads = (out, refl, λ key. ground (arith, reads key))
  lookup-read_rows section (r ∷ rows) plain out h reads =
      elim (Bool-cases (text_eq r.section section)) [
        | inl e ↦
            let (p, s, read) = head_read section r rows plain reads e in
            Loads-head section r rows plain p out e s read (
              lookup-read_rows section rows (without r.key plain) (put r.key p out) h.1
                (tail_same section r rows plain reads h.0 e))
        | inr e ↦
            Loads-other section r rows plain out e (
              lookup-read_rows section rows plain out h.1 (tail_other section r rows plain reads e))
      ]
