-- ===== src/Denylist/Bans.antt =====
-- Which devices are denied after a ban, a deletion or an import.
use wi_fi_roaming_with_i_kua.Prelude.{
  ℕ, ◌+◌, ◌≡◌, ◌≢◌, refl, subst, of_branches, Bool, true, false, not, List, [], ◌∷◌, ◌++◌, Option,
  none, some, length, select, if◌then◌else◌, arith, length-append,
}
use wi_fi_roaming_with_i_kua.Text.{Text, is_empty, text_eq}
use wi_fi_roaming_with_i_kua.Text.Laws.{text_eq_iff, text_eq_refl}
use wi_fi_roaming_with_i_kua.Database.{Faults, after_faults, transaction}
use wi_fi_roaming_with_i_kua.Denylist.{
  mac_digits, normalize_mac, is_normalized_mac, DeniedMac, find_mac, is_mac_denied, denied_row,
  insert_mac, add_mac, MacInput, add_macs_from, import_counts, add_mac_many, delete_mac,
}

find_mac-append :
    (m : Text) (rows : List DeniedMac) (r : DeniedMac)
    → find_mac m (rows ++ r ∷ [])
      ≡ elim (find_mac m rows) [ none ↦ if text_eq r.mac m then some r else none | some s ↦ some s ]
unfolding find_mac
find_mac-append m [] r = refl
find_mac-append m (s ∷ rows) r = ground (arith, find_mac-append m rows r)

-- The row that a device has after an insert.
find_mac-insert_mac :
    (m : Text) (row : DeniedMac) (rows : List DeniedMac)
    → find_mac m (insert_mac row rows).0 ≡ elim (find_mac m rows) [
      | none ↦ if text_eq row.mac m then some row else none
      | some s ↦ some s
    ]
unfolding insert_mac
find_mac-insert_mac m row rows = ground (arith, find_mac-append m rows row, text_eq_iff row.mac m)

nonempty_normalized : (m : Text) → is_normalized_mac m ≡ true → is_empty m ≡ false
unfolding is_normalized_mac is_empty
nonempty_normalized [] h = ground (arith, h)
nonempty_normalized (a ∷ m) h = refl

-- Spellings with the same twelve digits, in any case and with any separators, are one device.
normalize_mac-digits :
    (m other : Text)
    → mac_digits m ≡ mac_digits other
    → length (mac_digits m) ≡ 12
    → normalize_mac m ≡ normalize_mac other
unfolding normalize_mac
normalize_mac-digits m other same twelve = ground (arith, same, twelve)

-- The entry that a ban leaves for a device: the one that was there, or the new one.
abbrev pub kept_entry : Option DeniedMac → DeniedMac → Option DeniedMac
kept_entry none row = some row
kept_entry (some old) row = some old

-- Right after a ban that returns no error, a lookup whose statement works finds the device denied
-- under every spelling with the same twelve digits, with the first entry that was made for it.
pub ban_denies :
    (fails : Faults) (now : ℕ) (mac reason created_by spelling : Text) (rows : List DeniedMac)
    → (add_mac fails now mac reason created_by rows).1 ≢ none
    → mac_digits mac ≡ mac_digits spelling
    → length (mac_digits mac) ≡ 12
    → is_mac_denied false spelling (add_mac fails now mac reason created_by rows).0
      ≡ kept_entry (find_mac (normalize_mac mac) rows) (denied_row now mac reason created_by)
unfolding add_mac is_mac_denied insert_mac denied_row
ban_denies fails now mac reason created_by spelling rows ok same twelve = ground (
  arith,
  ok,
  normalize_mac-digits mac spelling same twelve,
  nonempty_normalized (normalize_mac mac),
  find_mac-append (normalize_mac mac) rows (denied_row now mac reason created_by),
  text_eq_refl (normalize_mac mac),
)

-- A ban changes no other device's answer, whichever statements fail.
pub ban_others :
    (fails : Faults) (now : ℕ) (mac reason created_by other : Text) (rows : List DeniedMac)
    → normalize_mac mac ≢ normalize_mac other
    → is_mac_denied false other (add_mac fails now mac reason created_by rows).0
      ≡ is_mac_denied false other rows
unfolding add_mac is_mac_denied insert_mac denied_row
ban_others fails now mac reason created_by other rows ne = ground (
  arith,
  ne,
  find_mac-append (normalize_mac other) rows (denied_row now mac reason created_by),
  text_eq_iff (normalize_mac mac) (normalize_mac other),
)

find_mac-select :
    (m n : Text) (rows : List DeniedMac)
    → find_mac m (select (λ r. not (text_eq r.mac n)) rows)
      ≡ (if text_eq m n then none else find_mac m rows)
unfolding find_mac
find_mac-select m n [] = ground arith
find_mac-select m n (r ∷ rows) =
    ground
      (arith, find_mac-select m n rows, text_eq_iff r.mac m, text_eq_iff r.mac n, text_eq_iff m n)

-- A successful deletion lifts the ban of its device, and no other.
pub unban_device :
    (mac other : Text) (rows : List DeniedMac)
    → is_mac_denied false other (delete_mac false mac rows).0 ≡ (
        if text_eq (normalize_mac other) (normalize_mac mac)
        then none
        else is_mac_denied false other rows)
unfolding delete_mac is_mac_denied
unban_device mac other rows = ground (
  arith,
  find_mac-select (normalize_mac other) (normalize_mac mac) rows,
  text_eq_iff (normalize_mac other) (normalize_mac mac),
)

-- What an import without an error counts, and how the table grows.
Counted : ℕ → ℕ → Option (List DeniedMac × (ℕ × ℕ)) → Type 0
Counted total size none = Unit {0}
Counted total size (some (rows, (added, skipped))) =
    (added + skipped ≡ total) × (length rows ≡ size + added)

length-insert_mac :
    (row : DeniedMac) (rows : List DeniedMac)
    → length (insert_mac row rows).0 ≡ length rows + (if (insert_mac row rows).1 then 1 else 0)
unfolding insert_mac
length-insert_mac row rows = ground (arith, length-append rows (row ∷ []))

add_macs_from-Counted :
    (items : List MacInput) (fails : Faults) (now added skipped size : ℕ) (rows : List DeniedMac)
    → length rows ≡ size + added
    → Counted
        (added + skipped + length items)
        size
        (add_macs_from fails now items added skipped rows)
unfolding add_macs_from insert_mac Counted
add_macs_from-Counted [] fails now added skipped size rows h = (omega arith, h)
add_macs_from-Counted (i ∷ items) fails now added skipped size rows h =
    let row = denied_row now i.mac i.reason i.created_by in
    let total = added + skipped + length (i ∷ items) in
    let rows' = (insert_mac row rows).0 in
    let grown = length-insert_mac row rows in
    of_branches (Counted total size) (not (is_normalized_mac row.mac))
      (λ _.
        subst (λ n. Counted n size (add_macs_from fails now items added (skipped + 1) rows))
          (omega arith) (add_macs_from-Counted items fails now added (skipped + 1) size rows h))
      (λ _.
        of_branches (Counted total size) (fails 0) (λ _. tt)
          (λ _.
            of_branches (Counted total size) (insert_mac row rows).1
              (λ new.
                subst
                  (λ n.
                    Counted n size
                      (add_macs_from (after_faults 1 fails) now items (added + 1) skipped rows'))
                  (omega arith)
                  (add_macs_from-Counted items (after_faults 1 fails) now (added + 1) skipped size
                    rows' (ground (arith, grown, new, h))))
              (λ known.
                subst
                  (λ n.
                    Counted n size
                      (add_macs_from (after_faults 1 fails) now items added (skipped + 1) rows'))
                  (omega arith)
                  (add_macs_from-Counted items (after_faults 1 fails) now added (skipped + 1) size
                    rows' (ground (arith, grown, known, h))))))

import_counts-Counted :
    (fails : Bool) (items : List MacInput) (rows : List DeniedMac)
    (o : Option (List DeniedMac × (ℕ × ℕ)))
    → Counted (length items) (length rows) o
    → ((import_counts (length items) (transaction fails rows o)).1.0
          + (import_counts (length items) (transaction fails rows o)).1.1
        ≡ length items)
      × (length (import_counts (length items) (transaction fails rows o)).0
          ≡ length rows + (import_counts (length items) (transaction fails rows o)).1.0)
unfolding Counted
import_counts-Counted fails items rows none h = (omega arith, omega arith)
import_counts-Counted true items rows (some (rows', (added, skipped))) h =
    (omega arith, omega arith)
import_counts-Counted false items rows (some (rows', (added, skipped))) h = h

-- An import reports every one of its rows as added or as skipped, and the table grows by those that
-- it reports as added, whichever statements fail.
pub import_counted :
    (commit_fails : Bool) (fails : Faults) (now : ℕ) (items : List MacInput) (rows : List DeniedMac)
    → ((add_mac_many commit_fails fails now items rows).1.0
          + (add_mac_many commit_fails fails now items rows).1.1
        ≡ length items)
      × (length (add_mac_many commit_fails fails now items rows).0
          ≡ length rows + (add_mac_many commit_fails fails now items rows).1.0)
unfolding add_mac_many
import_counted commit_fails fails now items rows =
    import_counts-Counted commit_fails items rows (add_macs_from fails now items 0 0 rows) (
      subst (λ n. Counted n (length rows) (add_macs_from fails now items 0 0 rows)) (omega arith)
        (add_macs_from-Counted items fails now 0 0 (length rows) rows (omega arith)))
