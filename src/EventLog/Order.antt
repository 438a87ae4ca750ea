-- ===== src/EventLog/Order.antt =====
-- What a query lists, against what a count gives, and the table's ids.
use wi_fi_roaming_with_i_kua.Prelude.{
  ℕ, zero, suc, ◌+◌, ◌≤◌, ◌≡◌, refl, Bool, true, false, ◌&&◌, not, List, [], ◌∷◌, ◌++◌, Option,
  none, some, if◌then◌else◌, arith, length, take, select, ltb, length-select,
}
use wi_fi_roaming_with_i_kua.Text.{Text}
use wi_fi_roaming_with_i_kua.EventLog.{
  EventRow, Event, Table, append, EventQuery, comes_first, insert_row, order_rows, limited,
  row_matches, query, count_events,
}
use wi_fi_roaming_with_i_kua.EventLog.Batches.{is_ordered}

-- No row comes before the row in front of it.
unfoldable pub is_newest_first : List EventRow → Bool
is_newest_first [] = true
is_newest_first (r ∷ []) = true
is_newest_first (r ∷ q ∷ rows) = not (comes_first q r) && is_newest_first (q ∷ rows)

asym : (a b : EventRow) → comes_first a b ≡ true → comes_first b a ≡ false
unfolding comes_first
asym a b h = ground (arith, h)

insert_row-newest :
    (r : EventRow) (rows : List EventRow)
    → is_newest_first rows ≡ true
    → is_newest_first (insert_row r rows) ≡ true
unfolding insert_row is_newest_first
insert_row-newest r [] h = refl
insert_row-newest r (q ∷ []) h = ground (arith, asym q r, asym r q)
insert_row-newest r (q ∷ s ∷ rows) h = ground (arith, h, asym q r, insert_row-newest r (s ∷ rows))

order_rows-newest : (rows : List EventRow) → is_newest_first (order_rows rows) ≡ true
unfolding order_rows is_newest_first
order_rows-newest [] = refl
order_rows-newest (r ∷ rows) = insert_row-newest r (order_rows rows) (order_rows-newest rows)

take-newest :
    (n : ℕ) (rows : List EventRow)
    → is_newest_first rows ≡ true
    → is_newest_first (take n rows) ≡ true
unfolding is_newest_first
take-newest zero rows h = refl
take-newest (suc n) [] h = refl
take-newest (suc zero) (r ∷ rows) h = refl
take-newest (suc (suc n)) (r ∷ []) h = refl
take-newest (suc (suc n)) (r ∷ q ∷ rows) h = ground (arith, h, take-newest (suc n) (q ∷ rows))

length-insert_row :
    (r : EventRow) (rows : List EventRow) → length (insert_row r rows) ≡ suc (length rows)
unfolding insert_row
length-insert_row r [] = refl
length-insert_row r (q ∷ rows) = ground (arith, length-insert_row r rows)

length-order_rows : (rows : List EventRow) → length (order_rows rows) ≡ length rows
unfolding order_rows
length-order_rows [] = refl
length-order_rows (r ∷ rows) =
    omega (arith, length-insert_row r (order_rows rows), length-order_rows rows)

-- The smaller of a limit and a number.
unfoldable pub at_most : Option ℕ → ℕ → ℕ
at_most none n = n
at_most (some limit) n = if ltb limit n then limit else n

length-take : (n : ℕ) (rows : List EventRow) → length (take n rows) ≡ at_most (some n) (length rows)
unfolding at_most
length-take zero [] = refl
length-take zero (r ∷ rows) = ground arith
length-take (suc n) [] = ground arith
length-take (suc n) (r ∷ rows) = ground (arith, length-take n rows)

length-limited :
    (limit : Option ℕ) (rows : List EventRow)
    → length (limited limit rows) ≡ at_most limit (length rows)
unfolding limited at_most
length-limited none rows = refl
length-limited (some n) rows = length-take n rows

limited-newest :
    (limit : Option ℕ) (rows : List EventRow)
    → is_newest_first rows ≡ true
    → is_newest_first (limited limit rows) ≡ true
unfolding limited
limited-newest none rows h = h
limited-newest (some n) rows h = take-newest n rows h

-- A query that works lists its events newest first, with the larger id first at one time, and as many
-- as the count of the same filter gives, up to the limit.
pub query_count :
    (like : Text → Text → Bool) (f : EventQuery) (rows : List EventRow)
    → (is_newest_first (query like false f rows) ≡ true)
      × (length (query like false f rows) ≡ at_most f.limit (count_events like false f rows))
unfolding query count_events
query_count like f rows =
    let found = select (row_matches like f) rows in
    (
      limited-newest f.limit (order_rows found) (order_rows-newest found),
      rw
          (
            length-limited f.limit (order_rows found),
            length-order_rows found,
            length-select (row_matches like f) rows,
          )
          refl,
    )

unfoldable pub all_below : ℕ → List EventRow → Bool
all_below n [] = true
all_below n (r ∷ rows) = ltb r.id n && all_below n rows

-- The ids of a table ascend and are below the next one.
pub record IsTable (t : Table) : Type 0 where
  pub ascends : is_ordered 0 t.rows ≡ true
  pub below : all_below t.next_id t.rows ≡ true

is_ordered-append :
    (r : EventRow) (k : ℕ) (rows : List EventRow)
    → is_ordered k rows ≡ true
    → all_below r.id rows ≡ true
    → k ≤ r.id
    → is_ordered k (rows ++ r ∷ []) ≡ true
unfolding is_ordered all_below
is_ordered-append r k [] h b le = ground (arith, le)
is_ordered-append r k (q ∷ rows) h b le = ground (arith, h, b, is_ordered-append r (q.id + 1) rows)

all_below-append :
    (r : EventRow) (rows : List EventRow)
    → all_below r.id rows ≡ true
    → all_below (r.id + 1) (rows ++ r ∷ []) ≡ true
unfolding all_below
all_below-append r [] b = ground arith
all_below-append r (q ∷ rows) b = ground (arith, b, all_below-append r rows)

-- Recording an event, whether it fails or not, keeps the ids of the table ascending and below the
-- next one.
pub append-IsTable :
    (fails : Bool) (now : ℕ) (ev : Event) (t : Table) → IsTable t → IsTable (append fails now ev t)
unfolding append
append-IsTable true now ev t h = h
append-IsTable false now ev t h =
    let time : ℕ = elim ev.time [ none ↦ now | some at ↦ at ] in
    let row : EventRow = record { id = t.next_id; time = time; event = ev } in
    record {
      ascends = is_ordered-append row 0 t.rows h.ascends h.below (omega arith);
      below = all_below-append row t.rows h.below;
    }
