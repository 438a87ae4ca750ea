-- ===== src/GuestCodes/Changes.antt =====
-- What Get answers after a code was added or codes were deleted.
use wi_fi_roaming_with_i_kua.Prelude.{
  ℕ, some_injective, ◌≡◌, ◌⊎◌, refl, sym, ap, subst, ◌∙◌, Bool, true, false, not, List, [], ◌∷◌,
  Option, none, some, select, if◌then◌else◌, arith, Bool-cases, inl, inr,
}
use wi_fi_roaming_with_i_kua.Text.{Text, is_empty, text_eq}
use wi_fi_roaming_with_i_kua.Text.Laws.{text_eq_iff, text_eq_refl}
use wi_fi_roaming_with_i_kua.Database.{no_faults}
use wi_fi_roaming_with_i_kua.GuestCodes.Rows.{
  CodeRow, UseRow, Tables, GuestCode, normalize_code, to_domain_code, is_active, find_row, uses_of,
  order_by_at,
}
use wi_fi_roaming_with_i_kua.GuestCodes.Store.{
  get, cascades, delete_rows, delete, row_inactive, delete_inactive,
}
use wi_fi_roaming_with_i_kua.GuestCodes.Valid.{Rows, IsValid, find_row-select}
use wi_fi_roaming_with_i_kua.GuestCodes.Lookup.{
  find_row-RowIsValid, get_lem, get-none, lookup_cases, is_active-to_domain_code,
}

-- No row of a key that is not there goes with a use.
pub cascades_absent :
    (goes : CodeRow → Bool) (rows : List CodeRow) (u : UseRow)
    → Rows rows
    → find_row (normalize_code u.code) rows ≡ none
    → cascades goes rows u ≡ false
unfolding cascades find_row
cascades_absent goes [] u h e = refl
cascades_absent goes (s ∷ rows) u h e = ground (
  arith,
  e,
  cascades_absent goes rows u h.1.1,
  h.0.0,
  text_eq_iff s.code u.code,
  text_eq_refl (normalize_code u.code),
)

-- A use of a row that stays does not go.
cascades_found :
    (goes : CodeRow → Bool) (k : Text) (rows : List CodeRow) (row : CodeRow) (u : UseRow)
    → Rows rows
    → find_row k rows ≡ some row
    → goes row ≡ false
    → row.code ≡ u.code
    → cascades goes rows u ≡ false
unfolding cascades find_row
cascades_found goes k [] row u h e stays same = refl
cascades_found goes k (s ∷ rows) row u h e stays same = elim (Bool-cases (text_eq s.code_lower k)) [
  | inl t ↦
      let q : s ≡ row = some_injective (rw t at e) in
      let key = h.0.0 ∙ ap (λ r. normalize_code r.code) q ∙ ap normalize_code same in
      ground (
        arith,
        ap goes q,
        stays,
        cascades_absent goes rows u h.1.1 (subst (λ j. find_row j rows ≡ none) key h.1.0),
      )
  | inr t ↦
      let e' = rw t at e in
      let valid = find_row-RowIsValid k rows row h.1.1 e' in
      ground (
        arith,
        cascades_found goes k rows row u h.1.1 e' stays same,
        t,
        same,
        text_eq_iff s.code u.code,
        h.0.0,
        valid.0.0,
        valid.1,
      )
]

find_row-select_lem :
    (p : CodeRow → Bool) (k : Text) (rows : List CodeRow) (row : CodeRow)
    → Rows rows
    → find_row k rows ≡ some row
    → find_row k (select p rows) ≡ (if p row then some row else none)
unfolding find_row
find_row-select_lem p k [] row h e = ground (arith, e)
find_row-select_lem p k (s ∷ rows) row h e = elim (Bool-cases (text_eq s.code_lower k)) [
  | inl t ↦
      let q : s ≡ row = some_injective (rw t at e) in
      let key = (text_eq_iff s.code_lower k).0 t in
      let gone = find_row-select p k rows (subst (λ j. find_row j rows ≡ none) key h.1.0) in
      elim (Bool-cases (p s)) [
        | inl b ↦ ground (arith, b, t, ap p q, ap (λ r. some r) q)
        | inr b ↦ ground (arith, b, t, ap p q, gone)
      ]
  | inr t ↦ ground (arith, t, find_row-select_lem p k rows row h.1.1 (rw t at e))
]

uses_of-select :
    (code : Text) (q : UseRow → Bool) (uses : List UseRow)
    → ((u : UseRow) → code ≡ u.code → q u ≡ true)
    → uses_of code (select q uses) ≡ uses_of code uses
unfolding uses_of
uses_of-select code q [] h = refl
uses_of-select code q (u ∷ uses) h = elim (Bool-cases (text_eq u.code code)) [
  | inl t ↦
      ground (arith, t, h u (sym ((text_eq_iff u.code code).0 t)), uses_of-select code q uses h)
  | inr t ↦ ground (arith, t, uses_of-select code q uses h)
]

-- A deletion of rows takes the codes that it is about, and leaves what Get answers for the others.
delete_rows_lem :
    (goes : CodeRow → Bool) (code : Text) (t : Tables) (row : CodeRow)
    → IsValid t
    → is_empty (normalize_code code) ≡ false
    → find_row (normalize_code code) t.codes ≡ some row
    → get no_faults code (delete_rows goes t) ≡ (if goes row then none else get no_faults code t)
unfolding delete_rows
delete_rows_lem goes code t row h named found =
    let k = normalize_code code in
    let rest = find_row-select_lem (λ r. not (goes r)) k t.codes row h.rows found in
    elim (Bool-cases (goes row)) [
      | inl g ↦ rw g (get-none no_faults code (delete_rows goes t) (inr (rw g at rest)))
      | inr g ↦
          let uses =
            uses_of-select row.code (λ u. not (cascades goes t.codes u)) t.uses
              (λ u same. ap not (cascades_found goes k t.codes row u h.rows found g same)) in
          rw g (
            get_lem code (delete_rows goes t) row named (rw g at rest)
            ∙ ap (λ l. some (to_domain_code row (order_by_at l))) uses
            ∙ sym (get_lem code t row named found))
    ]

delete_rows_absent :
    (goes : CodeRow → Bool) (code : Text) (t : Tables)
    → (is_empty (normalize_code code) ≡ true) ⊎ (find_row (normalize_code code) t.codes ≡ none)
    → get no_faults code (delete_rows goes t) ≡ none
unfolding delete_rows
delete_rows_absent goes code t (inl e) = get-none no_faults code (delete_rows goes t) (inl e)
delete_rows_absent goes code t (inr e) =
    get-none no_faults code (delete_rows goes t) (inr (find_row-select _ _ t.codes e))

-- What a cleanup leaves of an answer.
abbrev pub active_only : ℕ → Option GuestCode → Option GuestCode
active_only now none = none
active_only now (some c) = if is_active now c then some c else none

-- The cleanup removes exactly the codes that are not active, and leaves all that Get answers about
-- the others, their uses included.
pub get-delete_inactive :
    (now : ℕ) (code : Text) (t : Tables)
    → IsValid t
    → get no_faults code (delete_inactive false now t).0 ≡ active_only now (get no_faults code t)
unfolding delete_inactive row_inactive
get-delete_inactive now code t h =
    let goes = row_inactive now t.uses in
    elim (lookup_cases code t) [
      | inl e ↦ rw (get-none no_faults code t e) (delete_rows_absent goes code t e)
      | inr r ↦
          let row = r.1.0 in
          let valid = find_row-RowIsValid (normalize_code code) t.codes row h.rows r.1.1 in
          let active = is_active-to_domain_code now row t.uses valid.0.1 in
          ground (
            arith,
            delete_rows_lem goes code t row h r.0 r.1.1,
            get_lem code t row r.0 r.1.1,
            active,
          )
    ]

-- A successful Delete removes the code under every spelling of it, and no other code.
pub get-delete :
    (code other : Text) (t : Tables)
    → IsValid t
    → get no_faults other (delete false code t).0 ≡ (
        if text_eq (normalize_code other) (normalize_code code)
        then none
        else get no_faults other t)
unfolding delete
get-delete code other t h =
    let goes = λ (r : CodeRow). text_eq r.code_lower (normalize_code code) in
    elim (lookup_cases other t) [
      | inl e ↦ ground (arith, get-none no_faults other t e, delete_rows_absent goes other t e)
      | inr r ↦
          let row = r.1.0 in
          let valid = find_row-RowIsValid (normalize_code other) t.codes row h.rows r.1.1 in
          let key = (text_eq_iff row.code_lower (normalize_code other)).0 valid.1 in
          ground (
            arith,
            delete_rows_lem goes other t row h r.0 r.1.1,
            r.0,
            key,
            text_eq_iff (normalize_code other) (normalize_code code),
          )
    ]
