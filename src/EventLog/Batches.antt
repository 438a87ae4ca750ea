-- ===== src/EventLog/Batches.antt =====
-- What one batch of a sweep takes, over a table in the order of its ids.
use wi_fi_roaming_with_i_kua.Prelude.{
  ℕ, zero, suc, ◌+◌, ◌-◌, ◌≤◌, ◌≡◌, refl, ap, sym, ◌∙◌, subst, Bool, true, false, ◌&&◌, not, List,
  [], ◌∷◌, if◌then◌else◌, arith, length, take, select, count, leb,
}
use wi_fi_roaming_with_i_kua.EventLog.{EventRow, has_id, delete_ids, ids_of}

-- The rows have ascending ids from a number on.
unfoldable pub is_ordered : ℕ → List EventRow → Bool
is_ordered k [] = true
is_ordered k (r ∷ rows) = leb k r.id && is_ordered (r.id + 1) rows

-- The rows without the first ones, up to a number of them, that are past.
unfoldable pub without_past : (EventRow → Bool) → ℕ → List EventRow → List EventRow
without_past past n [] = []
without_past past zero (r ∷ rows) = r ∷ rows
without_past past (suc n) (r ∷ rows) =
    if past r then without_past past n rows else r ∷ without_past past (suc n) rows

-- The ids of those first ones.
unfoldable pub past_ids : (EventRow → Bool) → ℕ → List EventRow → List ℕ
past_ids past n [] = []
past_ids past zero (r ∷ rows) = []
past_ids past (suc n) (r ∷ rows) =
    if past r then r.id ∷ past_ids past n rows else past_ids past (suc n) rows

past_ids-zero : (past : EventRow → Bool) (rows : List EventRow) → past_ids past 0 rows ≡ []
unfolding past_ids
past_ids-zero past [] = refl
past_ids-zero past (r ∷ rows) = refl

ids_of-take :
    (past : EventRow → Bool) (n : ℕ) (rows : List EventRow)
    → ids_of (take n (select past rows)) ≡ past_ids past n rows
unfolding past_ids
ids_of-take past zero [] = refl
ids_of-take past (suc n) [] = refl
ids_of-take past zero (r ∷ rows) = refl
ids_of-take past (suc n) (r ∷ rows) =
    ground (arith, ids_of-take past n rows, ids_of-take past (suc n) rows)

has_id-later :
    (past : EventRow → Bool) (n i k : ℕ) (rows : List EventRow)
    → is_ordered k rows ≡ true
    → suc i ≤ k
    → has_id i (past_ids past n rows) ≡ false
unfolding is_ordered has_id past_ids
has_id-later past n i k [] h lt = refl
has_id-later past zero i k (r ∷ rows) h lt = refl
has_id-later past (suc n) i k (r ∷ rows) h lt =
    let one = has_id-later past n i (r.id + 1) rows in
    let two = has_id-later past (suc n) i (r.id + 1) rows in ground (arith, h, lt, one, two)

-- Ids before the rows delete none of them.
delete_ids-before :
    (i k : ℕ) (ids : List ℕ) (rows : List EventRow)
    → is_ordered k rows ≡ true
    → suc i ≤ k
    → delete_ids (i ∷ ids) rows ≡ delete_ids ids rows
unfolding delete_ids is_ordered has_id
delete_ids-before i k ids [] h lt = refl
delete_ids-before i k ids (r ∷ rows) h lt =
    ground (arith, h, lt, delete_ids-before i (r.id + 1) ids rows)

delete_ids-nil : (rows : List EventRow) → delete_ids [] rows ≡ rows
unfolding delete_ids has_id
delete_ids-nil [] = refl
delete_ids-nil (r ∷ rows) = ground (arith, delete_ids-nil rows)

-- A batch removes the first rows that are past.
delete_ids-past_ids :
    (past : EventRow → Bool) (n k : ℕ) (rows : List EventRow)
    → is_ordered k rows ≡ true
    → delete_ids (past_ids past n rows) rows ≡ without_past past n rows
unfolding delete_ids past_ids without_past is_ordered has_id
delete_ids-past_ids past n k [] h = refl
delete_ids-past_ids past zero k (r ∷ rows) h = ap (λ l. r ∷ l) (delete_ids-nil rows)
delete_ids-past_ids past (suc n) k (r ∷ rows) h = ground (
  arith,
  h,
  delete_ids-past_ids past n (r.id + 1) rows,
  delete_ids-past_ids past (suc n) (r.id + 1) rows,
  delete_ids-before r.id (r.id + 1) (past_ids past n rows) rows,
  has_id-later past (suc n) r.id (r.id + 1) rows,
)

unfoldable pub fresh : (EventRow → Bool) → List EventRow → List EventRow
fresh past rows = select (λ r. not (past r)) rows

fresh-without_past :
    (past : EventRow → Bool) (n : ℕ) (rows : List EventRow)
    → fresh past (without_past past n rows) ≡ fresh past rows
unfolding fresh without_past
fresh-without_past past n [] = refl
fresh-without_past past zero (r ∷ rows) = refl
fresh-without_past past (suc n) (r ∷ rows) =
    ground (arith, fresh-without_past past n rows, fresh-without_past past (suc n) rows)

is_ordered-weaken :
    (j k : ℕ) (rows : List EventRow) → is_ordered k rows ≡ true → j ≤ k → is_ordered j rows ≡ true
unfolding is_ordered
is_ordered-weaken j k [] h le = refl
is_ordered-weaken j k (r ∷ rows) h le = ground (arith, h, le)

is_ordered-without_past :
    (past : EventRow → Bool) (n k : ℕ) (rows : List EventRow)
    → is_ordered k rows ≡ true
    → is_ordered k (without_past past n rows) ≡ true
unfolding is_ordered without_past
is_ordered-without_past past n k [] h = refl
is_ordered-without_past past zero k (r ∷ rows) h = h
is_ordered-without_past past (suc n) k (r ∷ rows) h = ground (
  arith,
  h,
  is_ordered-without_past past n (r.id + 1) rows,
  is_ordered-without_past past (suc n) (r.id + 1) rows,
  is_ordered-weaken k (r.id + 1) (without_past past n rows),
)

-- A batch takes as many of the past rows as it can.
count-without_past :
    (past : EventRow → Bool) (n : ℕ) (rows : List EventRow)
    → count past (without_past past n rows) ≡ count past rows - n
unfolding without_past
count-without_past past n [] = omega arith
count-without_past past zero (r ∷ rows) = omega arith
count-without_past past (suc n) (r ∷ rows) =
    ground (arith, count-without_past past n rows, count-without_past past (suc n) rows)

length-past_ids :
    (past : EventRow → Bool) (n : ℕ) (rows : List EventRow)
    → length (past_ids past n rows) + count past (without_past past n rows) ≡ count past rows
unfolding past_ids without_past
length-past_ids past n [] = omega arith
length-past_ids past zero (r ∷ rows) = omega arith
length-past_ids past (suc n) (r ∷ rows) =
    ground (arith, length-past_ids past n rows, length-past_ids past (suc n) rows)

pub fresh_all :
    (past : EventRow → Bool) (rows : List EventRow) → count past rows ≡ 0 → fresh past rows ≡ rows
unfolding fresh
fresh_all past [] h = refl
fresh_all past (r ∷ rows) h = ground (arith, h, fresh_all past rows)

pub count-delete_ids :
    (ids : List ℕ) (rows : List EventRow)
    → count (λ r. has_id r.id ids) rows + length (delete_ids ids rows) ≡ length rows
unfolding delete_ids
count-delete_ids ids [] = omega arith
count-delete_ids ids (r ∷ rows) = ground (arith, count-delete_ids ids rows)

-- One batch, as the loop writes it.
batch_rest :
    (past : EventRow → Bool) (batch k : ℕ) (rows : List EventRow)
    → is_ordered k rows ≡ true
    → delete_ids (ids_of (take batch (select past rows))) rows ≡ without_past past batch rows
batch_rest past batch k rows h =
    ap (λ ids. delete_ids ids rows) (ids_of-take past batch rows)
    ∙ delete_ids-past_ids past batch k rows h

pub rest_fresh :
    (past : EventRow → Bool) (batch k : ℕ) (rows : List EventRow)
    → is_ordered k rows ≡ true
    → fresh past (delete_ids (ids_of (take batch (select past rows))) rows) ≡ fresh past rows
rest_fresh past batch k rows h =
    ap (fresh past) (batch_rest past batch k rows h) ∙ fresh-without_past past batch rows

pub rest_ordered :
    (past : EventRow → Bool) (batch k : ℕ) (rows : List EventRow)
    → is_ordered k rows ≡ true
    → is_ordered k (delete_ids (ids_of (take batch (select past rows))) rows) ≡ true
rest_ordered past batch k rows h =
    subst (λ l. is_ordered k l ≡ true) (sym (batch_rest past batch k rows h))
      (is_ordered-without_past past batch k rows h)

-- What is left to a later batch, and how many ids the batch has.
pub rest_count :
    (past : EventRow → Bool) (batch k : ℕ) (rows : List EventRow)
    → is_ordered k rows ≡ true
    → (count past (delete_ids (ids_of (take batch (select past rows))) rows)
        ≡ count past rows - batch)
      × (length (ids_of (take batch (select past rows))) + (count past rows - batch)
          ≡ count past rows)
rest_count past batch k rows h = (
  ap (count past) (batch_rest past batch k rows h) ∙ count-without_past past batch rows,
  omega (
    arith,
    ap length (ids_of-take past batch rows),
    length-past_ids past batch rows,
    count-without_past past batch rows,
  ),
)
