-- ===== src/GuestCodes/Store.antt =====
-- portal/store_guestcode.go: the operations of `GuestCodeStore` that write, and the lookup. Each call
-- takes the time and which of its statements fail. Transactions are serialised, by a row lock or by
-- SQLite's single connection.
use wi_fi_roaming_with_i_kua.Prelude.{
  ℕ, Bool, true, false, ◌&&◌, ◌||◌, not, List, [], ◌∷◌, ◌++◌, map, Option, none, some, length,
  select, count, if◌then◌else◌, ltb, ◌==◌,
}
use wi_fi_roaming_with_i_kua.Text.{Text, is_empty, text_eq, contains}
use wi_fi_roaming_with_i_kua.Database.{Faults, after_faults, transaction}
use wi_fi_roaming_with_i_kua.GuestCodes.Rows.{
  CodeRow, UseRow, Tables, CodeUse, GuestCode, normalize_code, or_now, nullable, to_domain_code,
  to_row, find_row, uses_of, order_by_at, row_expired, row_exhausted,
}

-- The answer of a transaction whose error is `false`.
abbrev pub committed : Tables × Option Bool → Tables × Bool
committed (t, none) = (t, false)
committed (t, some b) = (t, b)

-- The primary key and the unique index on `code_lower`.
unfoldable pub conflicts : CodeRow → List CodeRow → Bool
unfolding text_eq
conflicts row [] = false
conflicts row (r ∷ rows) =
    text_eq r.code row.code || text_eq r.code_lower row.code_lower || conflicts row rows

unfoldable pub use_row : ℕ → Text → CodeUse → UseRow
use_row now code u = record {
  code = code;
  at = or_now now u.at;
  mac = u.mac;
  ip = u.ip;
  guest_upn = u.guest_upn;
}

-- insertCode: statement 0 inserts the code, statement 1 its uses. `none` is an error.
unfoldable pub insert_code : Faults → ℕ → GuestCode → Tables → Option (Tables × Bool)
unfolding to_row conflicts use_row
insert_code fails now c t =
    let row = to_row now c in
    let codes = t.codes ++ row ∷ [] in
    let uses = t.uses ++ map (use_row now row.code) c.uses in
    if fails 0
    then none
    else if conflicts row t.codes
    then some (t, false)
    else if length c.uses == 0
    then some (record t { codes = codes }, true)
    else if fails 1
    then none
    else some (record { codes = codes; uses = uses }, true)

-- Add: statement 2 is the commit.
unfoldable pub add : Faults → ℕ → GuestCode → Tables → Tables × Bool
unfolding normalize_code is_empty insert_code
add fails now c t =
    if is_empty (normalize_code c.code)
    then (t, false)
    else committed (transaction (fails 2) t (insert_code fails now c t))

-- `if ok { added = append(added, c.Code) }`
abbrev pub note_added : Bool → Text → Option (Tables × List Text) → Option (Tables × List Text)
note_added inserted code none = none
note_added inserted code (some (t, added)) = some (t, if inserted then code ∷ added else added)

-- The loop of AddMany.
unfoldable pub add_from :
    Faults → ℕ → List Text → List GuestCode → Tables → Option (Tables × List Text)
unfolding normalize_code is_empty contains
add_from fails now seen [] t = some (t, [])
add_from fails now seen (c ∷ cs) t =
    let k = normalize_code c.code in
    let skipped = add_from fails now seen cs t in
    let offered : Option (Tables × List Text) = elim (insert_code fails now c t) [
      | none ↦ none
      | some r ↦ note_added r.1 c.code (add_from (after_faults 2 fails) now (k ∷ seen) cs r.0)
    ] in
    if is_empty k || contains k seen then skipped else offered

abbrev pub added_codes : Tables × Option (List Text) → Tables × List Text
added_codes (t, none) = (t, [])
added_codes (t, some added) = (t, added)

-- AddMany: the codes that were added, in the order they were offered.
unfoldable pub add_many : Bool → Faults → ℕ → List GuestCode → Tables → Tables × List Text
unfolding add_from
add_many commit_fails fails now codes t =
    added_codes (transaction commit_fails t (add_from fails now [] codes t))

-- Whether a use belongs to a code that goes.
unfoldable pub cascades : (CodeRow → Bool) → List CodeRow → UseRow → Bool
unfolding text_eq
cascades goes [] u = false
cascades goes (r ∷ rows) u = goes r && text_eq r.code u.code || cascades goes rows u

-- `DELETE` with `OnDelete:CASCADE`.
unfoldable pub delete_rows : (CodeRow → Bool) → Tables → Tables
unfolding cascades
delete_rows goes t = record {
  codes = select (λ r. not (goes r)) t.codes;
  uses = select (λ u. not (cascades goes t.codes u)) t.uses;
}

unfoldable pub delete : Bool → Text → Tables → Tables × Bool
unfolding normalize_code is_empty delete_rows text_eq
delete fails code t =
    let k = normalize_code code in
    let goes = λ (r : CodeRow). text_eq r.code_lower k in
    if is_empty k || fails then (t, false) else (delete_rows goes t, ltb 0 (count goes t.codes))

-- The keys that are not empty.
unfoldable pub keys_of : List Text → List Text
unfolding normalize_code is_empty
keys_of [] = []
keys_of (c ∷ cs) = let k = normalize_code c in if is_empty k then keys_of cs else k ∷ keys_of cs

-- DeleteMany
unfoldable pub delete_many : Bool → List Text → Tables → Tables × ℕ
unfolding keys_of contains delete_rows
delete_many fails codes t =
    let keys = keys_of codes in
    let goes = λ (r : CodeRow). contains r.code_lower keys in
    if length keys == 0 || fails then (t, 0) else (delete_rows goes t, count goes t.codes)

-- The updates of Edit on the row of a key; an expiry of 0 becomes NULL.
unfoldable pub edit_row : Text → ℕ → ℕ → ℕ → Text → CodeRow → CodeRow
unfolding text_eq
edit_row k expires_at duration_min max_uses note r =
    if text_eq r.code_lower k
    then record r {
      duration_min = duration_min;
      max_uses = max_uses;
      note = note;
      expires_at = nullable expires_at;
    }
    else r

-- Edit
unfoldable pub edit : Bool → Text → ℕ → ℕ → ℕ → Text → Tables → Tables × Bool
unfolding normalize_code is_empty
edit fails code expires_at duration_min max_uses note t =
    let k = normalize_code code in
    if is_empty k || fails then (t, false) else (
      record t { codes = map (edit_row k expires_at duration_min max_uses note) t.codes },
      ltb 0 (count (λ r. text_eq r.code_lower k) t.codes),
    )

-- The condition of DeleteInactive.
unfoldable pub row_inactive : ℕ → List UseRow → CodeRow → Bool
unfolding row_expired row_exhausted
row_inactive now uses r = row_expired now r || row_exhausted uses r

-- DeleteInactive
unfoldable pub delete_inactive : Bool → ℕ → Tables → Tables × ℕ
unfolding row_inactive delete_rows
delete_inactive fails now t =
    if fails
    then (t, 0)
    else (delete_rows (row_inactive now t.uses) t, count (row_inactive now t.uses) t.codes)

-- Get: the statements find the code and load its uses, whose failure leaves none.
unfoldable pub get : Faults → Text → Tables → Option GuestCode
unfolding normalize_code is_empty find_row uses_of order_by_at to_domain_code
get fails code t =
    let k = normalize_code code in
    if is_empty k || fails 0 then none else elim (find_row k t.codes) [
      | none ↦ none
      | some row ↦
          some (to_domain_code row (if fails 1 then [] else order_by_at (uses_of row.code t.uses)))
    ]

-- The transaction of Validate from the row on: statement 1 counts the uses, 2 inserts one, 3 reads
-- them back.
unfoldable pub redeem :
    Faults → ℕ → Text → Text → Text → CodeRow → Tables → Option (Tables × GuestCode)
unfolding row_expired row_exhausted uses_of order_by_at to_domain_code
redeem fails now mac ip guest_upn row t =
    let redemption : UseRow = record {
      code = row.code;
      at = now;
      mac = mac;
      ip = ip;
      guest_upn = guest_upn;
    } in
    let t' = record t { uses = t.uses ++ redemption ∷ [] } in
    if row_expired now row || fails 1 || row_exhausted t.uses row || fails 2 || fails 3
    then none
    else some (t', to_domain_code row (order_by_at (uses_of row.code t'.uses)))

-- Validate: statement 0 finds the row, 4 is the commit.
unfoldable pub validate :
    Faults → ℕ → Text → Text → Text → Text → Tables → Tables × Option GuestCode
validate fails now code mac ip guest_upn t =
    let k = normalize_code code in
    let found : Option (Tables × GuestCode) = elim (find_row k t.codes) [
      | none ↦ none
      | some row ↦ redeem fails now mac ip guest_upn row t
    ] in
    if is_empty k || fails 0 then (t, none) else transaction (fails 4) t found
