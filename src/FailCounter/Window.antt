-- ===== src/FailCounter/Window.antt =====
-- What a counter counts after each operation.
use wi_fi_roaming_with_i_kua.Prelude.{
  ℕ, ◌+◌, ◌-◌, ◌≤◌, ◌≡◌, ◌≢◌, refl, false, List, [], ◌∷◌, ◌++◌, none, select, count, count-append,
  if◌then◌else◌, ltb, arith, inl, inr, Option-cases,
}
use wi_fi_roaming_with_i_kua.Text.{Text, text_eq}
use wi_fi_roaming_with_i_kua.Text.Laws.{text_eq_iff, text_eq_refl}
use wi_fi_roaming_with_i_kua.Maps.{Map, lookup, has_key}
use wi_fi_roaming_with_i_kua.Maps.Laws.{lookup-put, lookup-delete}
use wi_fi_roaming_with_i_kua.Maps.Evict.{lookup-evict_oldest-none}
use wi_fi_roaming_with_i_kua.FailCounter.{
  FailCounter, times_of, prune_times, evict_oldest_locked, must_evict, record_fail, count_in, reset,
  latest, gc,
}

-- A key's times after a pruning.
times-prune_times :
    (cutoff : ℕ) (key : Text) (m : Map (List ℕ))
    → times_of (lookup key (prune_times cutoff m)) ≡ select (ltb cutoff) (times_of (lookup key m))
unfolding lookup prune_times
times-prune_times cutoff key [] = refl
times-prune_times cutoff key ((k, ts) ∷ m) = ground (
  arith,
  lookup-delete k key (prune_times cutoff m),
  times-prune_times cutoff key m,
  text_eq_iff k key,
)

lookup-prune_times-none :
    (cutoff : ℕ) (key : Text) (m : Map (List ℕ))
    → lookup key m ≡ none
    → lookup key (prune_times cutoff m) ≡ none
unfolding lookup prune_times
lookup-prune_times-none cutoff key [] h = refl
lookup-prune_times-none cutoff key ((k, ts) ∷ m) h =
    ground (arith, lookup-delete k key (prune_times cutoff m), lookup-prune_times-none cutoff key m)

lookup-evict_oldest_locked-none :
    (now : ℕ) (key : Text) (c : FailCounter)
    → lookup key c.entries ≡ none
    → lookup key (evict_oldest_locked now c).entries ≡ none
unfolding evict_oldest_locked
lookup-evict_oldest_locked-none now key c h =
    let gone = lookup-prune_times-none (now - c.max_window) key c.entries h in
    ground (arith, gone, lookup-evict_oldest-none latest 90000 key _ gone)

-- Making room for a key leaves the key's own times alone.
times-room :
    (now : ℕ) (key : Text) (c : FailCounter)
    → times_of (lookup key (if must_evict key c then evict_oldest_locked now c else c).entries)
      ≡ times_of (lookup key c.entries)
unfolding must_evict has_key
times-room now key c = elim (Option-cases (lookup key c.entries)) [
  | inl absent ↦ ground (arith, lookup-evict_oldest_locked-none now key c absent)
  | inr (ts, found) ↦ ground arith
]

-- Counting with a cutoff that pruning respects.
count-select :
    (low high : ℕ) (ts : List ℕ)
    → low ≤ high
    → count (ltb high) (select (ltb low) ts) ≡ count (ltb high) ts
count-select low high [] h = refl
count-select low high (t ∷ ts) h = ground (arith, count-select low high ts)

-- A recorded failure counts once in every window that its time lies in, and in no other, also when
-- the counter was full and had to make room.
pub count_in-record_fail :
    (at now window : ℕ) (key : Text) (c : FailCounter)
    → count_in now window key (record_fail at key c)
      ≡ count_in now window key c + (if ltb (now - window) at then 1 else 0)
unfolding count_in record_fail
count_in-record_fail at now window key c =
    let room = if must_evict key c then evict_oldest_locked at c else c in
    let ts = times_of (lookup key room.entries) in
    ground (
      arith,
      times-room at key c,
      lookup-put key key (ts ++ at ∷ []) room.entries,
      text_eq_refl key,
      count-append (ltb (now - window)) ts (at ∷ []),
    )

-- A row of failures of one key.
unfoldable pub record_all : List ℕ → Text → FailCounter → FailCounter
record_all [] key c = c
record_all (at ∷ rest) key c = record_all rest key (record_fail at key c)

-- Of a row of failures a window counts those that lie in it.
pub count_in-record_all :
    (ts : List ℕ) (now window : ℕ) (key : Text) (c : FailCounter)
    → count_in now window key (record_all ts key c)
      ≡ count_in now window key c + count (ltb (now - window)) ts
unfolding record_all
count_in-record_all [] now window key c = omega arith
count_in-record_all (at ∷ rest) now window key c = ground (
  arith,
  count_in-record_all rest now window key (record_fail at key c),
  count_in-record_fail at now window key c,
)

-- A failure of one key leaves every other key's count alone, unless the counter was full.
pub count_in-record_fail_ne :
    (now later window : ℕ) (key other : Text) (c : FailCounter)
    → key ≢ other
    → must_evict key c ≡ false
    → count_in later window other (record_fail now key c) ≡ count_in later window other c
unfolding count_in record_fail
count_in-record_fail_ne now later window key other c ne room = rw room (
    ground (
      arith,
      lookup-put key other (times_of (lookup key c.entries) ++ now ∷ []) c.entries,
      text_eq_iff key other,
    ))

-- A reset forgets its key and no other.
pub count_in-reset :
    (now window : ℕ) (key other : Text) (c : FailCounter)
    → count_in now window other (reset key c)
      ≡ (if text_eq key other then 0 else count_in now window other c)
unfolding count_in reset
count_in-reset now window key other c = ground (arith, lookup-delete key other c.entries)

-- The sweep changes no count over a window within the counter's longest.
pub count_in-gc :
    (now later window : ℕ) (key : Text) (c : FailCounter)
    → now ≤ later
    → window ≤ c.max_window
    → count_in later window key (gc now c) ≡ count_in later window key c
unfolding count_in gc
count_in-gc now later window key c past h =
    rw times-prune_times (count-select _ _ (times_of (lookup key c.entries)) (omega arith))
