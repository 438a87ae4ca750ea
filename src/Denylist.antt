-- ===== src/Denylist.antt =====
-- portal/store_denylist.go, portal/denylist.go and `normalizeMAC` of portal/ikuai.go: the devices that
-- are blocked. Each call takes which of its statements fail.
pub mod Bans
use wi_fi_roaming_with_i_kua.Prelude.{
  ℕ, ◌+◌, Bool, true, false, ◌&&◌, ◌||◌, not, List, [], ◌∷◌, ◌++◌, Option, none, some, length,
  select, count, take, drop, if◌then◌else◌, ltb, leb, ◌==◌,
}
use wi_fi_roaming_with_i_kua.Text.{Text, is_empty, text_eq, text_ltb, trim_space, to_lower}
use wi_fi_roaming_with_i_kua.Database.{Faults, after_faults, transaction}

unfoldable pub is_separator : ℕ → Bool
is_separator c = c == b'-' || c == b':' || c == b' '

-- The argument of the length test in `normalizeMAC`.
unfoldable pub mac_digits : Text → Text
unfolding is_separator to_lower
mac_digits mac = to_lower (select (λ c. not (is_separator c)) mac)

-- Colons between every two bytes.
unfoldable pub by_pairs : Text → Text
by_pairs [] = []
by_pairs (a ∷ []) = a ∷ []
by_pairs (a ∷ b ∷ []) = a ∷ b ∷ []
by_pairs (a ∷ b ∷ c ∷ s) = a ∷ b ∷ b':' ∷ by_pairs (c ∷ s)

-- normalizeMAC
unfoldable pub normalize_mac : Text → Text
unfolding mac_digits by_pairs to_lower
normalize_mac mac =
    let clean = mac_digits mac in if length clean == 12 then by_pairs clean else to_lower mac

unfoldable pub is_lower_hex : ℕ → Bool
is_lower_hex c = leb b'0' c && leb c b'9' || leb b'a' c && leb c b'f'

-- The loop of `isNormalizedMAC`: hex digits in pairs with colons between them, to the end.
unfoldable pub pairs_of_hex : Text → Bool
unfolding is_lower_hex
pairs_of_hex [] = true
pairs_of_hex (a ∷ []) = is_lower_hex a
pairs_of_hex (a ∷ b ∷ []) = is_lower_hex a && is_lower_hex b
pairs_of_hex (a ∷ b ∷ c ∷ s) = is_lower_hex a && is_lower_hex b && c == b':' && pairs_of_hex s

-- isNormalizedMAC
unfoldable pub is_normalized_mac : Text → Bool
unfolding pairs_of_hex
is_normalized_mac mac = length mac == 17 && pairs_of_hex mac

-- dbstore.DeniedMAC, and the domain type of the same fields.
pub record DeniedMac : Type 0 where
  pub mac : Text
  pub reason : Text
  pub created_at : ℕ
  pub created_by : Text

-- `Where("mac = ?", norm).First(&row)`
unfoldable pub find_mac : Text → List DeniedMac → Option DeniedMac
unfolding text_eq
find_mac m [] = none
find_mac m (r ∷ rows) = if text_eq r.mac m then some r else find_mac m rows

-- IsMACDenied
unfoldable pub is_mac_denied : Bool → Text → List DeniedMac → Option DeniedMac
unfolding normalize_mac is_empty find_mac
is_mac_denied fails mac rows =
    let norm = normalize_mac mac in if is_empty norm || fails then none else find_mac norm rows

-- The row of a request to ban.
unfoldable pub denied_row : ℕ → Text → Text → Text → DeniedMac
unfolding normalize_mac trim_space
denied_row now mac reason created_by = record {
  mac = normalize_mac mac;
  reason = trim_space reason;
  created_at = now;
  created_by = trim_space created_by;
}

-- The insert that does nothing on a conflict: the table, and whether a row was affected.
unfoldable pub insert_mac : DeniedMac → List DeniedMac → List DeniedMac × Bool
unfolding find_mac
insert_mac row rows = elim (find_mac row.mac rows) [
  | none ↦ (rows ++ row ∷ [], true)
  | some existing ↦ (rows, false)
]

-- AddMAC: statement 0 inserts, statement 1 reads the row that was there. `none` is an error.
unfoldable pub add_mac :
    Faults → ℕ → Text → Text → Text → List DeniedMac → List DeniedMac × Option (DeniedMac × Bool)
unfolding denied_row is_normalized_mac insert_mac find_mac
add_mac fails now mac reason created_by rows =
    let row = denied_row now mac reason created_by in
    let (rows', inserted) = insert_mac row rows in
    let existing : Option (DeniedMac × Bool) = elim (find_mac row.mac rows) [
      | none ↦ none
      | some r ↦ some (r, false)
    ] in
    if not (is_normalized_mac row.mac) || fails 0
    then (rows, none)
    else if inserted
    then (rows', some (row, true))
    else (rows, if fails 1 then none else existing)

pub record MacInput : Type 0 where
  pub mac : Text
  pub reason : Text
  pub created_by : Text

-- The loop of AddMACMany: the table, and how many rows it added and skipped. `none` is an error.
unfoldable pub add_macs_from :
    Faults → ℕ → List MacInput → ℕ → ℕ → List DeniedMac → Option (List DeniedMac × (ℕ × ℕ))
unfolding denied_row is_normalized_mac insert_mac
add_macs_from fails now [] added skipped rows = some (rows, (added, skipped))
add_macs_from fails now (i ∷ items) added skipped rows =
    let row = denied_row now i.mac i.reason i.created_by in
    let (rows', inserted) = insert_mac row rows in
    let invalid = add_macs_from fails now items added (skipped + 1) rows in
    let new = add_macs_from (after_faults 1 fails) now items (added + 1) skipped rows' in
    let known = add_macs_from (after_faults 1 fails) now items added (skipped + 1) rows' in
    if not (is_normalized_mac row.mac)
    then invalid
    else if fails 0
    then none
    else if inserted
    then new
    else known

-- The counts after the transaction.
abbrev pub import_counts : ℕ → List DeniedMac × Option (ℕ × ℕ) → List DeniedMac × (ℕ × ℕ)
import_counts n (rows, none) = (rows, (0, n))
import_counts n (rows, some counts) = (rows, counts)

-- AddMACMany
unfoldable pub add_mac_many :
    Bool → Faults → ℕ → List MacInput → List DeniedMac → List DeniedMac × (ℕ × ℕ)
unfolding add_macs_from
add_mac_many commit_fails fails now items rows =
    import_counts (length items)
      (transaction commit_fails rows (add_macs_from fails now items 0 0 rows))

-- DeleteMAC
unfoldable pub delete_mac : Bool → Text → List DeniedMac → List DeniedMac × Bool
unfolding normalize_mac is_empty text_eq
delete_mac fails mac rows =
    let norm = normalize_mac mac in
    let goes = λ (r : DeniedMac). text_eq r.mac norm in
    if is_empty norm || fails
    then (rows, false)
    else (select (λ r. not (goes r)) rows, ltb 0 (count goes rows))

-- DeleteAllMACs
unfoldable pub delete_all_macs : Bool → List DeniedMac → List DeniedMac × ℕ
delete_all_macs fails rows = if fails then (rows, 0) else ([], length rows)

-- CountMACs
unfoldable pub count_macs : Bool → List DeniedMac → ℕ
count_macs fails rows = if fails then 0 else length rows

insert_denied : DeniedMac → List DeniedMac → List DeniedMac
unfolding text_ltb
insert_denied r [] = r ∷ []
insert_denied r (s ∷ rows) =
    if ltb s.created_at r.created_at || s.created_at == r.created_at && not (text_ltb s.mac r.mac)
    then r ∷ s ∷ rows
    else s ∷ insert_denied r rows

-- `Order("created_at DESC, mac ASC")`
unfoldable pub order_denied : List DeniedMac → List DeniedMac
unfolding insert_denied
order_denied [] = []
order_denied (r ∷ rows) = insert_denied r (order_denied rows)

-- ListMACs
unfoldable pub list_macs : Bool → List DeniedMac → List DeniedMac
unfolding order_denied
list_macs fails rows = if fails then [] else order_denied rows

module _ (like : Text → Text → Bool) where
  unfoldable pub mac_matches : Text → DeniedMac → Bool
  unfolding trim_space is_empty to_lower
  mac_matches search r =
      let s = trim_space search in
      let pattern = b'%' ∷ to_lower s ++ b'%' ∷ [] in
      is_empty s
      || like pattern r.mac
      || like pattern (to_lower r.reason)
      || like pattern (to_lower r.created_by)

  -- PageMACs: the rows of the page, and how many match. The database's LIKE is a parameter.
  unfoldable pub page_macs : Faults → Text → ℕ → ℕ → List DeniedMac → List DeniedMac × ℕ
  unfolding mac_matches order_denied
  page_macs fails search offset limit rows =
      let matching = select (mac_matches search) rows in
      let rest = drop offset (order_denied matching) in
      if fails 0
      then ([], 0)
      else if fails 1
      then ([], length matching)
      else (if limit == 0 then rest else take limit rest, length matching)
