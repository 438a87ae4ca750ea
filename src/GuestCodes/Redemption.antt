-- ===== src/GuestCodes/Redemption.antt =====
-- Who can redeem a guest code, and how often.
use wi_fi_roaming_with_i_kua.Prelude.{
  ℕ, some_injective, ◌+◌, ◌-◌, ◌≤◌, ◌<◌, ◌≡◌, ◌⊎◌, inl, inr, sym, ap, subst, ◌∙◌, Bool, true, false,
  ◌&&◌, ◌||◌, List, [], ◌∷◌, ◌++◌, Option, none, some, length, if◌then◌else◌, arith, Bool-cases,
  Option-cases,
}
use wi_fi_roaming_with_i_kua.Text.{Text, is_empty, text_eq}
use wi_fi_roaming_with_i_kua.Text.Laws.{text_eq_iff, text_eq_refl}
use wi_fi_roaming_with_i_kua.Database.{Faults}
use wi_fi_roaming_with_i_kua.GuestCodes.Rows.{
  CodeRow, UseRow, Tables, GuestCode, normalize_code, to_domain_code, find_row, uses_of,
  order_by_at, row_expired, row_exhausted,
}
use wi_fi_roaming_with_i_kua.GuestCodes.Store.{redeem, validate}

abbrev pub won : Option GuestCode → Bool
won none = false
won (some c) = true

-- The tables after a redemption.
abbrev pub redeemed : ℕ → Text → Text → Text → CodeRow → Tables → Tables
redeemed now mac ip guest_upn row t = record t {
  uses =
      t.uses
      ++ record { code = row.code; at = now; mac = mac; ip = ip; guest_upn = guest_upn } ∷ [];
}

-- What a redemption found.
pub record Redeems (now : ℕ) (code mac ip guest_upn : Text) (t : Tables)
    (r : Tables × Option GuestCode) : Type 0 where
  pub row : CodeRow
  pub found : find_row (normalize_code code) t.codes ≡ some row
  pub in_time : row_expired now row ≡ false
  pub uses_left : row_exhausted t.uses row ≡ false
  pub written : r.0 ≡ redeemed now mac ip guest_upn row t
  pub answer :
      r.1
      ≡ some (
          to_domain_code row
            (order_by_at (uses_of row.code (redeemed now mac ip guest_upn row t).uses)))

-- The answer of a redemption.
abbrev pub redeemed_code : ℕ → Text → Text → Text → CodeRow → Tables → GuestCode
redeemed_code now mac ip guest_upn row t =
    to_domain_code row (order_by_at (uses_of row.code (redeemed now mac ip guest_upn row t).uses))

redeem_cases :
    (fails : Faults) (now : ℕ) (mac ip guest_upn : Text) (row : CodeRow) (t : Tables)
    → (redeem fails now mac ip guest_upn row t ≡ none)
      ⊎ ((redeem fails now mac ip guest_upn row t
            ≡ some (redeemed now mac ip guest_upn row t, redeemed_code now mac ip guest_upn row t))
          × (row_expired now row ≡ false)
          × (row_exhausted t.uses row ≡ false))
unfolding redeem
redeem_cases fails now mac ip guest_upn row t =
    elim (Bool-cases
      (row_expired now row || fails 1 || row_exhausted t.uses row || fails 2 || fails 3)) [
        | inl e ↦ inl (ground (arith, e))
        | inr e ↦ inr (ground (arith, e), ground (arith, e), ground (arith, e))
      ]

validate_found :
    (fails : Faults) (now : ℕ) (code mac ip guest_upn : Text) (t : Tables) (row : CodeRow)
    → find_row (normalize_code code) t.codes ≡ some row
    → (validate fails now code mac ip guest_upn t ≡ (t, none))
      ⊎ ((validate fails now code mac ip guest_upn t ≡ (
        redeemed now mac ip guest_upn row t,
        some (redeemed_code now mac ip guest_upn row t),
      ))
          × (row_expired now row ≡ false)
          × (row_exhausted t.uses row ≡ false))
unfolding validate
validate_found fails now code mac ip guest_upn t row found =
    elim (Bool-cases (is_empty (normalize_code code) || fails 0)) [
      | inl e ↦ inl (ground (arith, e))
      | inr e ↦ elim (redeem_cases fails now mac ip guest_upn row t) [
        | inl h ↦ inl (ground (arith, e, found, h))
        | inr h ↦ elim (Bool-cases (fails 4)) [
          | inl f ↦ inl (ground (arith, e, found, h.0, f))
          | inr f ↦ inr (ground (arith, e, found, h.0, f), h.1, h.2)
        ]
      ]
    ]

validate_absent :
    (fails : Faults) (now : ℕ) (code mac ip guest_upn : Text) (t : Tables)
    → find_row (normalize_code code) t.codes ≡ none
    → validate fails now code mac ip guest_upn t ≡ (t, none)
unfolding validate
validate_absent fails now code mac ip guest_upn t absent = ground (arith, absent)

-- A call of Validate, whichever of its statements fail, either changes nothing and admits nobody, or
-- finds a code that is neither expired nor exhausted, records one use of it and returns the code with
-- its uses.
pub validate_cases :
    (fails : Faults) (now : ℕ) (code mac ip guest_upn : Text) (t : Tables)
    → (validate fails now code mac ip guest_upn t ≡ (t, none))
      ⊎ Redeems now code mac ip guest_upn t (validate fails now code mac ip guest_upn t)
validate_cases fails now code mac ip guest_upn t =
    elim (Option-cases (find_row (normalize_code code) t.codes)) [
      | inl absent ↦ inl (validate_absent fails now code mac ip guest_upn t absent)
      | inr (row, found) ↦ elim (validate_found fails now code mac ip guest_upn t row found) [
        | inl h ↦ inl h
        | inr h ↦ inr (record {
          row = row;
          found = found;
          in_time = h.1;
          uses_left = h.2;
          written = ap (λ r. r.0) h.0;
          answer = ap (λ r. r.1) h.0;
        })
      ]
    ]

-- How many uses of a code the tables hold.
abbrev pub used : Text → Tables → ℕ
used code t = length (uses_of code t.uses)

used-append :
    (code : Text) (u : UseRow) (uses : List UseRow)
    → length (uses_of code (uses ++ u ∷ []))
      ≡ length (uses_of code uses) + (if text_eq u.code code then 1 else 0)
unfolding uses_of
used-append code u [] = ground arith
used-append code u (v ∷ uses) = ground (arith, used-append code u uses)

-- One call of Validate, from any instance.
pub record Attempt : Type 0 where
  pub fails : Faults
  pub now : ℕ
  pub code : Text
  pub mac : Text
  pub ip : Text
  pub guest_upn : Text

pub attempt : Attempt → Tables → Tables × Option GuestCode
attempt a t = validate a.fails a.now a.code a.mac a.ip a.guest_upn t

-- How many of the calls redeem the code.
pub wins : Text → List Attempt → Tables → ℕ
wins k [] t = 0
wins k (a ∷ l) t =
    (if text_eq (normalize_code a.code) k && won (attempt a t).1 then 1 else 0)
    + wins k l (attempt a t).0

-- What one call counts.
abbrev pub gain : Text → Attempt → Tables → ℕ
gain k a t = if text_eq (normalize_code a.code) k && won (attempt a t).1 then 1 else 0

codes-attempt : (a : Attempt) (t : Tables) → (attempt a t).0.codes ≡ t.codes
unfolding attempt
codes-attempt a t = elim (validate_cases a.fails a.now a.code a.mac a.ip a.guest_upn t) [
  | inl same ↦ ap (λ r. r.0.codes) same
  | inr r ↦ ap (λ t'. t'.codes) r.written
]

used_redeemed :
    (now : ℕ) (mac ip guest_upn : Text) (row other : CodeRow) (t : Tables)
    → used row.code (redeemed now mac ip guest_upn other t)
      ≡ used row.code t + (if text_eq other.code row.code then 1 else 0)
used_redeemed now mac ip guest_upn row other t = used-append row.code _ t.uses

-- The row that a key finds is the one that a redemption by that key found.
uses_left_of :
    (k k' : Text) (row other : CodeRow) (t : Tables)
    → k' ≡ k
    → find_row k t.codes ≡ some row
    → find_row k' t.codes ≡ some other
    → row_exhausted t.uses other ≡ false
    → 0 < row.max_uses
    → (used row.code t < row.max_uses) × (text_eq other.code row.code ≡ true)
unfolding row_exhausted
uses_left_of k k' row other t same found found' left limited =
    let e : other ≡ row = some_injective (sym found' ∙ ap (λ j. find_row j t.codes) same ∙ found) in
    let h = subst (λ r. row_exhausted t.uses r ≡ false) e left in
    (ground (arith, h), ap (λ r. text_eq r.code row.code) e ∙ text_eq_refl row.code)

gain_recorded :
    (k : Text) (a : Attempt) (row : CodeRow) (t : Tables)
    → find_row k t.codes ≡ some row
    → 0 < row.max_uses
    → (gain k a t + used row.code t ≤ used row.code (attempt a t).0)
      × ((gain k a t ≡ 0) ⊎ (used row.code t < row.max_uses))
unfolding attempt
gain_recorded k a row t found limited =
    elim (validate_cases a.fails a.now a.code a.mac a.ip a.guest_upn t) [
      | inl same ↦ ground (arith, same)
      | inr r ↦
          let u = used_redeemed a.now a.mac a.ip a.guest_upn row r.row t in
          let u' = ap (λ s. used row.code s) r.written in
          elim (Bool-cases (text_eq (normalize_code a.code) k)) [
            | inl e ↦ ground (
              arith,
              e,
              r.answer,
              u,
              u',
              uses_left_of k (normalize_code a.code) row r.row t
                  ((text_eq_iff (normalize_code a.code) k).0 e) found r.found r.uses_left limited,
            )
            | inr e ↦ ground (arith, e, u, u')
          ]
    ]

-- Of any row of redemptions, by any instances and with any statements failing, no more succeed for a
-- limited code than it has uses left.
pub redemptions_bounded :
    (l : List Attempt) (k : Text) (row : CodeRow) (t : Tables)
    → find_row k t.codes ≡ some row
    → 0 < row.max_uses
    → wins k l t ≤ row.max_uses - used row.code t
unfolding wins
redemptions_bounded [] k row t found limited = omega arith
redemptions_bounded (a ∷ l) k row t found limited =
    let rest =
      redemptions_bounded l k row (attempt a t).0 (ground (arith, codes-attempt a t, found))
        limited in
    ground (arith, rest, gain_recorded k a row t found limited)
