-- ===== src/GuestCodes/Valid.antt =====
-- What holds of the two tables of guest codes between calls, and how the changes of rows keep it.
use wi_fi_roaming_with_i_kua.Prelude.{
  ◌≡◌, ◌≢◌, refl, Bool, true, false, not, List, [], ◌∷◌, ◌++◌, map, none, some, select, arith,
  Bool-cases, inl, inr,
}
use wi_fi_roaming_with_i_kua.Text.{Text, text_eq}
use wi_fi_roaming_with_i_kua.Text.Laws.{text_eq_refl}
use wi_fi_roaming_with_i_kua.GuestCodes.Rows.{CodeRow, UseRow, Tables, normalize_code, find_row}
use wi_fi_roaming_with_i_kua.GuestCodes.Store.{cascades, delete_rows}

-- The lookup key is that of the code, and an expiry is not Go's zero time.
abbrev pub RowIsValid : CodeRow → Type 0
RowIsValid r = (r.code_lower ≡ normalize_code r.code) × (r.expires_at ≢ some 0)

-- Valid rows, each with its own lookup key.
abbrev pub Rows : List CodeRow → Type 0
Rows [] = Unit {0}
Rows (r ∷ rows) = RowIsValid r × ((find_row r.code_lower rows ≡ none) × Rows rows)

-- Some row has the code of the use.
abbrev pub owned : List CodeRow → UseRow → Bool
owned codes u = cascades (λ r. true) codes u

abbrev pub Owned : List CodeRow → List UseRow → Type 0
Owned codes [] = Unit {0}
Owned codes (u ∷ uses) = (owned codes u ≡ true) × Owned codes uses

pub record IsValid (t : Tables) : Type 0 where
  pub rows : Rows t.codes
  pub owners : Owned t.codes t.uses

pub find_row-append :
    (k : Text) (rows : List CodeRow) (r : CodeRow)
    → find_row k rows ≡ none
    → text_eq r.code_lower k ≡ false
    → find_row k (rows ++ r ∷ []) ≡ none
unfolding find_row
find_row-append k [] r h e = ground (arith, e)
find_row-append k (s ∷ rows) r h e = ground (arith, find_row-append k rows r, h, e)

pub find_row-append_new :
    (k : Text) (rows : List CodeRow) (r : CodeRow)
    → find_row k rows ≡ none
    → text_eq r.code_lower k ≡ true
    → find_row k (rows ++ r ∷ []) ≡ some r
unfolding find_row
find_row-append_new k [] r h e = ground (arith, e)
find_row-append_new k (s ∷ rows) r h e = ground (arith, find_row-append_new k rows r, h, e)

text_eq_sym : (s t : Text) → text_eq s t ≡ text_eq t s
unfolding text_eq
text_eq_sym [] [] = refl
text_eq_sym [] (b ∷ t) = refl
text_eq_sym (a ∷ s) [] = refl
text_eq_sym (a ∷ s) (b ∷ t) = ground (arith, text_eq_sym s t)

pub Rows-append :
    (rows : List CodeRow) (r : CodeRow)
    → Rows rows
    → RowIsValid r
    → find_row r.code_lower rows ≡ none
    → Rows (rows ++ r ∷ [])
unfolding find_row
Rows-append [] r h valid fresh = (valid, (refl, tt))
Rows-append (s ∷ rows) r h valid fresh = (
  h.0,
  (
    find_row-append s.code_lower rows r h.1.0
        (ground (arith, fresh, text_eq_sym s.code_lower r.code_lower)),
    Rows-append rows r h.1.1 valid (ground (arith, fresh)),
  ),
)

pub find_row-select :
    (p : CodeRow → Bool) (k : Text) (rows : List CodeRow)
    → find_row k rows ≡ none
    → find_row k (select p rows) ≡ none
unfolding find_row
find_row-select p k [] h = refl
find_row-select p k (s ∷ rows) h = ground (arith, find_row-select p k rows, h)

pub Rows-select : (p : CodeRow → Bool) (rows : List CodeRow) → Rows rows → Rows (select p rows)
Rows-select p [] h = tt
Rows-select p (r ∷ rows) h = elim (Bool-cases (p r)) [
  | inl e ↦ rw e (h.0, (find_row-select p r.code_lower rows h.1.0, Rows-select p rows h.1.1))
  | inr e ↦ rw e (Rows-select p rows h.1.1)
]

owned-append :
    (codes more : List CodeRow) (u : UseRow) → owned codes u ≡ true → owned (codes ++ more) u ≡ true
unfolding cascades
owned-append [] more u h = ground (arith, h)
owned-append (r ∷ codes) more u h = ground (arith, owned-append codes more u, h)

pub owned-append_new :
    (codes : List CodeRow) (r : CodeRow) (u : UseRow)
    → u.code ≡ r.code
    → owned (codes ++ r ∷ []) u ≡ true
unfolding cascades
owned-append_new [] r u e = ground (arith, e, text_eq_refl r.code)
owned-append_new (s ∷ codes) r u e = ground (arith, owned-append_new codes r u e)

owned-select :
    (goes : CodeRow → Bool) (codes : List CodeRow) (u : UseRow)
    → owned codes u ≡ true
    → cascades goes codes u ≡ false
    → owned (select (λ r. not (goes r)) codes) u ≡ true
unfolding cascades
owned-select goes [] u h k = h
owned-select goes (r ∷ codes) u h k = ground (arith, owned-select goes codes u, h, k)

pub Owned-more :
    (codes more : List CodeRow) (uses : List UseRow) → Owned codes uses → Owned (codes ++ more) uses
Owned-more codes more [] h = tt
Owned-more codes more (u ∷ uses) h = (owned-append codes more u h.0, Owned-more codes more uses h.1)

pub Owned-append :
    (codes : List CodeRow) (uses more : List UseRow)
    → Owned codes uses
    → Owned codes more
    → Owned codes (uses ++ more)
Owned-append codes [] more h k = k
Owned-append codes (u ∷ uses) more h k = (h.0, Owned-append codes uses more h.1 k)

Owned-select :
    (goes : CodeRow → Bool) (codes : List CodeRow) (uses : List UseRow)
    → Owned codes uses
    → Owned (select (λ r. not (goes r)) codes) (select (λ u. not (cascades goes codes u)) uses)
Owned-select goes codes [] h = tt
Owned-select goes codes (u ∷ uses) h = elim (Bool-cases (cascades goes codes u)) [
  | inl e ↦ rw e (Owned-select goes codes uses h.1)
  | inr e ↦ rw e (owned-select goes codes u h.0 e, Owned-select goes codes uses h.1)
]

-- A DELETE keeps the tables valid: no use is left behind.
pub delete_rows-IsValid :
    (goes : CodeRow → Bool) (t : Tables) → IsValid t → IsValid (delete_rows goes t)
unfolding delete_rows
delete_rows-IsValid goes t h = record {
  rows = Rows-select (λ r. not (goes r)) t.codes h.rows;
  owners = Owned-select goes t.codes t.uses h.owners;
}

-- An update of rows that keeps their codes and their validity.
pub record Keeps (f : CodeRow → CodeRow) : Type 0 where
  pub code : (r : CodeRow) → (f r).code ≡ r.code
  pub key : (r : CodeRow) → (f r).code_lower ≡ r.code_lower
  pub valid : (r : CodeRow) → RowIsValid r → RowIsValid (f r)

module _ (f : CodeRow → CodeRow) (keeps : Keeps f) where
  find_row-map :
      (k : Text) (rows : List CodeRow) → find_row k rows ≡ none → find_row k (map f rows) ≡ none
  unfolding find_row
  find_row-map k [] h = refl
  find_row-map k (r ∷ rows) h = ground (arith, h, find_row-map k rows, keeps.key r)

  pub Rows-map : (rows : List CodeRow) → Rows rows → Rows (map f rows)
  Rows-map [] h = tt
  Rows-map (r ∷ rows) h = (
    keeps.valid r h.0,
    (rw (keeps.key r) (find_row-map r.code_lower rows h.1.0), Rows-map rows h.1.1),
  )

  owned-map :
      (codes : List CodeRow) (u : UseRow) → owned codes u ≡ true → owned (map f codes) u ≡ true
  unfolding cascades
  owned-map [] u h = h
  owned-map (r ∷ codes) u h = ground (arith, h, owned-map codes u, keeps.code r)

  pub Owned-map :
      (codes : List CodeRow) (uses : List UseRow) → Owned codes uses → Owned (map f codes) uses
  Owned-map codes [] h = tt
  Owned-map codes (u ∷ uses) h = (owned-map codes u h.0, Owned-map codes uses h.1)

-- A row that a lookup finds owns the uses with its code.
pub find_row-owned :
    (k : Text) (rows : List CodeRow) (r : CodeRow) (u : UseRow)
    → find_row k rows ≡ some r
    → text_eq r.code u.code ≡ true
    → owned rows u ≡ true
unfolding find_row cascades
find_row-owned k [] r u h e = ground (arith, h)
find_row-owned k (s ∷ rows) r u h e = ground (arith, find_row-owned k rows r u, h, e)
