-- ===== src/GuestCodes/Queries.antt =====
-- portal/store_guestcode.go: the reads of `GuestCodeStore` behind the admin pages. The database's
-- LIKE is a parameter: a pattern and a value.
use wi_fi_roaming_with_i_kua.Prelude.{
  ℕ, ◌-◌, Bool, true, ◌&&◌, ◌||◌, not, List, [], ◌∷◌, ◌++◌, map, length, select, count, take, drop,
  if◌then◌else◌, ltb, ◌==◌,
}
use wi_fi_roaming_with_i_kua.Text.{Text, bytes, is_empty, text_eq, text_ltb, trim_space, to_lower}
use wi_fi_roaming_with_i_kua.Database.{Faults}
use wi_fi_roaming_with_i_kua.GuestCodes.Rows.{
  CodeRow, UseRow, Tables, GuestCode, to_domain_code, uses_of, order_by_at, row_expired,
  row_exhausted,
}

-- CodeQuery
pub record CodeQuery : Type 0 where
  pub search : Text
  pub status : Text
  pub offset : ℕ
  pub limit : ℕ

-- codeStatusWhere
unfoldable pub code_status_where : Text → ℕ → List UseRow → CodeRow → Bool
unfolding text_eq row_expired row_exhausted
code_status_where status now uses r =
    if text_eq status (bytes "expired")
    then row_expired now r
    else if text_eq status (bytes "used")
    then not (row_expired now r) && row_exhausted uses r
    else if text_eq status (bytes "unused")
    then not (row_expired now r) && not (row_exhausted uses r)
    else true

-- `created_at DESC, code ASC`
unfoldable pub comes_before : CodeRow → CodeRow → Bool
unfolding text_ltb
comes_before r s =
    ltb s.created_at r.created_at || s.created_at == r.created_at && not (text_ltb s.code r.code)

insert_code_row : CodeRow → List CodeRow → List CodeRow
unfolding comes_before
insert_code_row r [] = r ∷ []
insert_code_row r (s ∷ rows) = if comes_before r s then r ∷ s ∷ rows else s ∷ insert_code_row r rows

-- `Order("created_at DESC, code ASC")`
unfoldable pub order_codes : List CodeRow → List CodeRow
unfolding insert_code_row
order_codes [] = []
order_codes (r ∷ rows) = insert_code_row r (order_codes rows)

-- The rows with their uses; a failure to load those leaves none.
unfoldable pub with_uses : Bool → List UseRow → List CodeRow → List GuestCode
unfolding to_domain_code uses_of order_by_at
with_uses fails uses rows =
    map (λ r. to_domain_code r (if fails then [] else uses_of r.code (order_by_at uses))) rows

-- List. (It sorts the rows again, by the same order.)
unfoldable pub list_codes : Faults → Tables → List GuestCode
unfolding order_codes with_uses
list_codes fails t = if fails 0 then [] else with_uses (fails 1) t.uses (order_codes t.codes)

-- ActiveCount
unfoldable pub active_count : Bool → ℕ → Tables → ℕ
unfolding code_status_where
active_count fails now t =
    if fails then 0 else count (code_status_where (bytes "unused") now t.uses) t.codes

pub record Counts : Type 0 where
  pub total : ℕ
  pub used : ℕ
  pub unused : ℕ
  pub expired : ℕ

-- Stats: a failed count gives 0, and so does a difference below 0.
unfoldable pub stats : Faults → ℕ → Tables → Counts
unfolding row_expired row_exhausted
stats fails now t =
    let total = if fails 0 then 0 else length t.codes in
    let expired = if fails 1 then 0 else count (row_expired now) t.codes in
    let used =
      if fails 2
      then 0
      else count (λ r. not (row_expired now r) && row_exhausted t.uses r) t.codes in
    record { total = total; used = used; unused = total - expired - used; expired = expired }

module _ (like : Text → Text → Bool) where
  -- applyCodeQuery
  unfoldable pub apply_code_query : CodeQuery → ℕ → List UseRow → CodeRow → Bool
  unfolding trim_space is_empty to_lower code_status_where
  apply_code_query f now uses r =
      let search = trim_space f.search in
      let pattern = b'%' ∷ to_lower search ++ b'%' ∷ [] in
      (is_empty search || like pattern r.code_lower || like pattern (to_lower r.note))
      && code_status_where f.status now uses r

  -- The rows of a page: `Limit` and `Offset`, each only above 0.
  abbrev pub page_of : CodeQuery → List CodeRow → List CodeRow
  page_of f rows = if f.limit == 0 then drop f.offset rows else take f.limit (drop f.offset rows)

  -- Page: the codes of the page, and how many codes match.
  unfoldable pub page : Faults → ℕ → CodeQuery → Tables → List GuestCode × ℕ
  unfolding apply_code_query order_codes with_uses
  page fails now f t =
      let matching = select (apply_code_query f now t.uses) t.codes in
      let n = length matching in
      if fails 0
      then ([], 0)
      else if fails 1
      then ([], n)
      else (with_uses (fails 2) t.uses (page_of f (order_codes matching)), n)
