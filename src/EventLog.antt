-- ===== src/EventLog.antt =====
-- portal/store_eventlog.go and portal/eventlog.go: the event log. The table is in the order of its
-- ids, which the database counts up. Times and durations are in nanoseconds; a time of `none` is the
-- zero time. SQL's LIKE is a parameter. No other statement comes between those of one sweep.
pub mod Batches
pub mod Prune
pub mod Order
pub mod Export
use wi_fi_roaming_with_i_kua.Prelude.{
  ℕ, zero, suc, ◌+◌, ◌*◌, Bool, true, false, ◌&&◌, ◌||◌, not, List, [], ◌∷◌, ◌++◌, Option, none,
  some, if◌then◌else◌, length, take, select, count, map, ltb, leb, ◌==◌,
}
use wi_fi_roaming_with_i_kua.Text.{Text, bytes, text_eq, is_empty, to_lower, trim_space}
use wi_fi_roaming_with_i_kua.Numbers.{ℤ, pos, negsuc}
use wi_fi_roaming_with_i_kua.Database.{Faults, after_faults}

-- Event
pub record Event : Type 0 where
  pub time : Option ℕ
  pub kind : Text
  pub subject : Text
  pub result : Text
  pub method : Text
  pub mac : Text
  pub ip : Text
  pub detail : Text

-- A row of the table, whose time is set.
pub record EventRow : Type 0 where
  pub id : ℕ
  pub time : ℕ
  pub event : Event

pub record Table : Type 0 where
  pub rows : List EventRow
  pub next_id : ℕ

abbrev pub empty_table : Table
empty_table = record { rows = []; next_id = 1 }

-- Append; a statement that fails is logged and swallowed.
unfoldable pub append : Bool → ℕ → Event → Table → Table
append fails now ev t =
    let time : ℕ = elim ev.time [ none ↦ now | some at ↦ at ] in
    let row : EventRow = record { id = t.next_id; time = time; event = ev } in
    if fails then t else record { rows = t.rows ++ row ∷ []; next_id = t.next_id + 1 }

-- EventQueryFilter; the limit is none where it is 0 or negative.
pub record EventQuery : Type 0 where
  pub kind : Text
  pub method : Text
  pub result : Text
  pub subject : Text
  pub since : Option ℕ
  pub until : Option ℕ
  pub limit : Option ℕ

unfoldable pub field_matches : Text → Text → Bool
field_matches wanted field = is_empty wanted || text_eq field wanted

unfoldable pub in_window : EventQuery → ℕ → Bool
in_window f time =
    elim f.since [ none ↦ true | some at ↦ leb at time ]
    && elim f.until [ none ↦ true | some at ↦ leb time at ]

-- Newest first, and the larger id first at one time.
unfoldable pub comes_first : EventRow → EventRow → Bool
comes_first a b = ltb b.time a.time || (a.time == b.time && ltb b.id a.id)

unfoldable pub insert_row : EventRow → List EventRow → List EventRow
insert_row r [] = r ∷ []
insert_row r (q ∷ rows) = if comes_first q r then q ∷ insert_row r rows else r ∷ q ∷ rows

unfoldable pub order_rows : List EventRow → List EventRow
order_rows [] = []
order_rows (r ∷ rows) = insert_row r (order_rows rows)

unfoldable pub limited : Option ℕ → List EventRow → List EventRow
limited none rows = rows
limited (some n) rows = take n rows

module _ (like : Text → Text → Bool) where
  -- applyFilter, of one row.
  unfoldable pub row_matches : EventQuery → EventRow → Bool
  row_matches f r =
      field_matches f.kind r.event.kind
      && (field_matches f.method r.event.method
          && (field_matches f.result r.event.result
              && (((is_empty (trim_space f.subject)
                    || like (bytes "%" ++ (to_lower (trim_space f.subject) ++ bytes "%"))
                        (to_lower r.event.subject)))
                  && in_window f r.time)))

  -- Query
  unfoldable pub query : Bool → EventQuery → List EventRow → List EventRow
  query fails f rows =
      if fails then [] else limited f.limit (order_rows (select (row_matches f) rows))

  -- Count
  unfoldable pub count_events : Bool → EventQuery → List EventRow → ℕ
  count_events fails f rows = if fails then 0 else count (row_matches f) rows

  -- MultiCount
  unfoldable pub multi_count : Faults → List EventQuery → List EventRow → List ℕ
  multi_count fails [] rows = []
  multi_count fails (f ∷ filters) rows =
      count_events (fails 0) f rows ∷ multi_count (after_faults 1 fails) filters rows

-- pruneBatch and pruneMaxBatches
abbrev pub prune_batch : ℕ
prune_batch = 5000

abbrev pub prune_max_batches : ℕ
prune_max_batches = 1000

-- Whether a row is before the cutoff, `now - retention`.
unfoldable pub is_past : ℕ → ℕ → EventRow → Bool
is_past now retention r = ltb (r.time + retention) now

unfoldable pub has_id : ℕ → List ℕ → Bool
has_id i [] = false
has_id i (j ∷ ids) = j == i || has_id i ids

-- DELETE WHERE id IN ids
unfoldable pub delete_ids : List ℕ → List EventRow → List EventRow
delete_ids ids rows = select (λ r. not (has_id r.id ids)) rows

abbrev pub ids_of : List EventRow → List ℕ
ids_of = map (λ r. r.id)

-- The loop of Prune: two statements a batch.
unfoldable pub prune_loop :
    Faults → (EventRow → Bool) → ℕ → ℕ → List EventRow → ℕ → List EventRow × ℕ
prune_loop fails past batch zero rows deleted = (rows, deleted)
prune_loop fails past batch (suc n) rows deleted =
    let ids = ids_of (take batch (select past rows)) in
    let rest = delete_ids ids rows in
    let gone = count (λ r. has_id r.id ids) rows in
    let later = prune_loop (after_faults 2 fails) past batch n rest (deleted + gone) in
    if fails 0
    then (rows, deleted)
    else if length ids == 0
    then (rows, deleted)
    else if fails 1
    then (rows, deleted)
    else if ltb (length ids) batch
    then (rest, deleted + gone)
    else later

-- Prune
unfoldable pub prune : Faults → ℕ → ℤ → List EventRow → List EventRow × ℕ
prune fails now (negsuc n) rows = (rows, 0)
prune fails now (pos zero) rows = (rows, 0)
prune fails now (pos (suc n)) rows =
    prune_loop fails (is_past now (suc n)) prune_batch prune_max_batches rows 0

-- logAdminAction
unfoldable pub log_admin_action : Bool → ℕ → Text → Text → Text → Text → Table → Table
log_admin_action fails now admin_upn ip result detail t =
    append fails now
      record {
        time = none;
        kind = bytes "admin_action";
        subject = admin_upn;
        result = result;
        method = bytes "admin";
        mac = [];
        ip = ip;
        detail = detail;
      }
      t
