-- ===== src/GuestCodes/Lookup.antt =====
-- What Get answers, and how the other operations of the store agree with it.
use wi_fi_roaming_with_i_kua.Prelude.{
  ℕ, some_injective, ◌+◌, ◌≡◌, ◌≢◌, ◌⊎◌, refl, sym, subst, ◌∙◌, Bool, true, false, ◌&&◌, not, List,
  [], ◌∷◌, map, Option, none, some, length, if◌then◌else◌, ltb, ◌==◌, arith, Bool-cases,
  Option-cases, inl, inr, zero, suc,
}
use wi_fi_roaming_with_i_kua.Text.{Text, is_empty, text_eq}
use wi_fi_roaming_with_i_kua.Database.{Faults, no_faults}
use wi_fi_roaming_with_i_kua.GuestCodes.Rows.{
  CodeRow, UseRow, Tables, GuestCode, normalize_code, time_of, to_use, to_domain_code, is_active,
  is_expired, is_exhausted, find_row, uses_of, insert_by_at, order_by_at, row_expired,
  row_exhausted,
}
use wi_fi_roaming_with_i_kua.GuestCodes.Store.{redeem, validate, get}
use wi_fi_roaming_with_i_kua.GuestCodes.Redemption.{won}
use wi_fi_roaming_with_i_kua.GuestCodes.Valid.{RowIsValid, Rows, IsValid}

length-insert_by_at : (u : UseRow) (l : List UseRow) → length (insert_by_at u l) ≡ length l + 1
unfolding insert_by_at
length-insert_by_at u [] = omega arith
length-insert_by_at u (v ∷ l) = ground (arith, length-insert_by_at u l)

length-order_by_at : (l : List UseRow) → length (order_by_at l) ≡ length l
unfolding order_by_at
length-order_by_at [] = refl
length-order_by_at (u ∷ l) =
    ground (arith, length-insert_by_at u (order_by_at l), length-order_by_at l)

length-uses : (l : List UseRow) → length (map to_use l) ≡ length l
length-uses [] = refl
length-uses (u ∷ l) = omega (arith, length-uses l)

-- A row that a lookup finds is valid, and its key is the one looked for.
pub find_row-RowIsValid :
    (k : Text) (rows : List CodeRow) (r : CodeRow)
    → Rows rows
    → find_row k rows ≡ some r
    → RowIsValid r × (text_eq r.code_lower k ≡ true)
unfolding find_row
find_row-RowIsValid k [] r h e = ground (arith, e)
find_row-RowIsValid k (s ∷ rows) r h e = elim (Bool-cases (text_eq s.code_lower k)) [
  | inl t ↦
      subst (λ r. RowIsValid r × (text_eq r.code_lower k ≡ true)) (some_injective (rw t at e))
        (h.0, t)
  | inr t ↦ find_row-RowIsValid k rows r h.1.1 (rw t at e)
]

-- The domain type's answer to whether a code can be redeemed.
abbrev pub redeemable : ℕ → Option GuestCode → Bool
redeemable now none = false
redeemable now (some c) = is_active now c

expiry_lem :
    (now : ℕ) (e : Option ℕ)
    → e ≢ some 0
    → (if time_of e == 0 then false else ltb (time_of e) now)
      ≡ elim e [ none ↦ false | some t ↦ ltb t now ]
expiry_lem now none dated = refl
expiry_lem now (some zero) dated = absurd (dated refl)
expiry_lem now (some (suc t)) dated = ground arith

-- The rows and the domain type agree on it.
pub is_active-to_domain_code :
    (now : ℕ) (row : CodeRow) (uses : List UseRow)
    → row.expires_at ≢ some 0
    → is_active now (to_domain_code row (order_by_at (uses_of row.code uses)))
      ≡ not (row_expired now row) && not (row_exhausted uses row)
unfolding is_active is_expired is_exhausted to_domain_code row_expired row_exhausted
is_active-to_domain_code now row uses dated =
    let expiry = expiry_lem now row.expires_at dated in
    let uses_lem = length-uses (order_by_at (uses_of row.code uses)) ∙ length-order_by_at _ in
    ground (arith, expiry, uses_lem)

redeem_lem :
    (now : ℕ) (code mac ip guest_upn : Text) (t : Tables) (row : CodeRow)
    → is_empty (normalize_code code) ≡ false
    → find_row (normalize_code code) t.codes ≡ some row
    → won (validate no_faults now code mac ip guest_upn t).1
      ≡ not (row_expired now row) && not (row_exhausted t.uses row)
unfolding validate redeem
redeem_lem now code mac ip guest_upn t row named found = ground (arith, named, found)

pub get_lem :
    (code : Text) (t : Tables) (row : CodeRow)
    → is_empty (normalize_code code) ≡ false
    → find_row (normalize_code code) t.codes ≡ some row
    → get no_faults code t ≡ some (to_domain_code row (order_by_at (uses_of row.code t.uses)))
unfolding get
get_lem code t row named found = ground (arith, named, found)

pub get-none :
    (fails : Faults) (code : Text) (t : Tables)
    → (is_empty (normalize_code code) ≡ true) ⊎ (find_row (normalize_code code) t.codes ≡ none)
    → get fails code t ≡ none
unfolding get
get-none fails code t (inl e) = ground (arith, e)
get-none fails code t (inr e) = ground (arith, e)

validate-none :
    (now : ℕ) (code mac ip guest_upn : Text) (t : Tables)
    → (is_empty (normalize_code code) ≡ true) ⊎ (find_row (normalize_code code) t.codes ≡ none)
    → won (validate no_faults now code mac ip guest_upn t).1 ≡ false
unfolding validate
validate-none now code mac ip guest_upn t (inl e) = ground (arith, e)
validate-none now code mac ip guest_upn t (inr e) = ground (arith, e)

-- A code is looked up, or not.
pub lookup_cases :
    (code : Text) (t : Tables)
    → ((is_empty (normalize_code code) ≡ true) ⊎ (find_row (normalize_code code) t.codes ≡ none))
      ⊎ ((is_empty (normalize_code code) ≡ false)
          × ((row : CodeRow) × (find_row (normalize_code code) t.codes ≡ some row)))
lookup_cases code t = elim (Bool-cases (is_empty (normalize_code code))) [
  | inl e ↦ inl (inl e)
  | inr e ↦ elim (Option-cases (find_row (normalize_code code) t.codes)) [
    | inl h ↦ inl (inr h)
    | inr h ↦ inr (e, h)
  ]
]

-- With every statement succeeding and the tables valid, a code is redeemed exactly when Get finds it
-- and IsActive holds of what Get finds.
pub validate_iff_active :
    (now : ℕ) (code mac ip guest_upn : Text) (t : Tables)
    → IsValid t
    → won (validate no_faults now code mac ip guest_upn t).1 ≡ redeemable now (get no_faults code t)
validate_iff_active now code mac ip guest_upn t h = elim (lookup_cases code t) [
  | inl e ↦ rw (get-none no_faults code t e) (validate-none now code mac ip guest_upn t e)
  | inr r ↦
      let valid = find_row-RowIsValid (normalize_code code) t.codes r.1.0 h.rows r.1.1 in
      rw (get_lem code t r.1.0 r.0 r.1.1) (
        redeem_lem now code mac ip guest_upn t r.1.0 r.0 r.1.1
        ∙ sym (is_active-to_domain_code now r.1.0 t.uses valid.0.1))
]
