-- ===== src/GuestCodes/Added.antt =====
-- When a code is added, and what Get answers about it.
use wi_fi_roaming_with_i_kua.Prelude.{
  ℕ, ◌≡◌, refl, sym, ap, subst, Bool, true, false, ◌&&◌, not, List, [], ◌∷◌, ◌++◌, Option, none,
  some, arith, Bool-cases, inl, inr,
}
use wi_fi_roaming_with_i_kua.Text.{Text, is_empty, text_eq}
use wi_fi_roaming_with_i_kua.Text.Laws.{text_eq_iff, text_eq_refl}
use wi_fi_roaming_with_i_kua.Database.{no_faults}
use wi_fi_roaming_with_i_kua.GuestCodes.Rows.{
  CodeRow, UseRow, Tables, GuestCode, normalize_code, or_now, time_of, nullable, to_domain_code,
  to_row, find_row, uses_of, order_by_at,
}
use wi_fi_roaming_with_i_kua.GuestCodes.Store.{get, conflicts, insert_code, add}
use wi_fi_roaming_with_i_kua.GuestCodes.Valid.{Rows, Owned, IsValid, find_row-append_new}
use wi_fi_roaming_with_i_kua.GuestCodes.Changes.{cascades_absent}

-- A clash of a valid code is a clash of its key.
conflicts_lem :
    (row : CodeRow) (rows : List CodeRow)
    → row.code_lower ≡ normalize_code row.code
    → Rows rows
    → conflicts row rows ≡ elim (find_row row.code_lower rows) [ none ↦ false | some r ↦ true ]
unfolding conflicts find_row
conflicts_lem row [] keyed h = refl
conflicts_lem row (s ∷ rows) keyed h = ground (
  arith,
  keyed,
  h.0.0,
  conflicts_lem row rows keyed h.1.1,
  text_eq_iff s.code row.code,
  text_eq_refl row.code_lower,
)

-- Get finds something.
abbrev pub is_found : Option GuestCode → Bool
is_found none = false
is_found (some c) = true

-- Add succeeds exactly when the code has a key that Get does not find yet.
pub add_iff_absent :
    (now : ℕ) (c : GuestCode) (t : Tables)
    → IsValid t
    → (add no_faults now c t).1
      ≡ not (is_empty (normalize_code c.code)) && not (is_found (get no_faults c.code t))
unfolding add insert_code get to_row
add_iff_absent now c t h = ground (arith, conflicts_lem (to_row now c) t.codes refl h.rows)

-- A code that is not there has no uses.
uses_of_absent :
    (code : Text) (codes : List CodeRow) (uses : List UseRow)
    → Rows codes
    → find_row (normalize_code code) codes ≡ none
    → Owned codes uses
    → uses_of code uses ≡ []
unfolding uses_of
uses_of_absent code codes [] h e o = refl
uses_of_absent code codes (u ∷ uses) h e o = elim (Bool-cases (text_eq u.code code)) [
  | inl t ↦
      let key = ap normalize_code (sym ((text_eq_iff u.code code).0 t)) in
      ground (
        arith,
        o.0,
        cascades_absent (λ r. true) codes u h (subst (λ k. find_row k codes ≡ none) key e),
      )
  | inr t ↦ ground (arith, t, uses_of_absent code codes uses h e o.1)
]

time_of-nullable : (t : ℕ) → time_of (nullable t) ≡ t
time_of-nullable t = ground arith

inserted :
    (now : ℕ) (c : GuestCode) (t : Tables)
    → c.uses ≡ []
    → (add no_faults now c t).1 ≡ true
    → (is_empty (normalize_code c.code) ≡ false)
      × (conflicts (to_row now c) t.codes ≡ false)
      × ((add no_faults now c t).0 ≡ record t { codes = t.codes ++ to_row now c ∷ [] })
unfolding add insert_code
inserted now c t fresh added = ground (arith, fresh, added)

-- Over tables that are valid, a code that is not used yet and that Add accepts is what Get answers
-- next for every spelling of it, with the time of the call where it had no creation time, while the
-- statements of both calls work.
pub get-add :
    (now : ℕ) (c : GuestCode) (spelling : Text) (t : Tables)
    → IsValid t
    → c.uses ≡ []
    → (add no_faults now c t).1 ≡ true
    → normalize_code spelling ≡ normalize_code c.code
    → get no_faults spelling (add no_faults now c t).0
      ≡ some (record c { created_at = or_now now c.created_at })
unfolding get to_row to_domain_code order_by_at
get-add now c spelling t h fresh added same =
    let r = inserted now c t fresh added in
    let absent : find_row (normalize_code c.code) t.codes ≡ none =
      ground (arith, r.1, conflicts_lem (to_row now c) t.codes refl h.rows) in
    ground (
      arith,
      r.0,
      r.2,
      same,
      time_of-nullable c.expires_at,
      fresh,
      uses_of_absent c.code t.codes t.uses h.rows absent h.owners,
      find_row-append_new (normalize_code c.code) t.codes (to_row now c) absent
          (text_eq_refl (normalize_code c.code)),
    )
