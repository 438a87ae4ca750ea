-- ===== src/FailCounter.antt =====
-- portal/ratelimit.go: `failCounter`, failure times per key. The time of a call is an argument; times
-- and windows are numbers of one unit since Go's zero time. A negative window counts nothing in the
-- code, as the window 0 does here.
pub mod Window
pub mod Size
use wi_fi_roaming_with_i_kua.Prelude.{
  ℕ, zero, suc, ◌-◌, ◌*◌, ◌/◌, Bool, List, [], ◌∷◌, ◌++◌, Option, none, some, length, select, count,
  if◌then◌else◌, ltb, leb, not, ◌&&◌,
}
use wi_fi_roaming_with_i_kua.Text.{Text}
use wi_fi_roaming_with_i_kua.Maps.{Map, lookup, has_key, put, delete, keep}
use wi_fi_roaming_with_i_kua.Maps.Evict.{evict_oldest}

-- maxFailCounterEntries
abbrev pub max_entries : ℕ
max_entries = 100000

pub record FailCounter : Type 0 where
  pub entries : Map (List ℕ)
  pub max_window : ℕ

pub new_fail_counter : ℕ → FailCounter
new_fail_counter max_window = record { entries = []; max_window = max_window }

-- The times of a key, none if it is absent: `c.entries[key]`.
abbrev pub times_of : Option (List ℕ) → List ℕ
times_of none = []
times_of (some ts) = ts

abbrev pub nonempty : List ℕ → Bool
nonempty [] = Bool.false
nonempty (t ∷ ts) = Bool.true

-- The pruning loop of `gcLoop` and `evictOldestLocked`: times after the cutoff stay, and a key with
-- none left goes.
unfoldable pub prune_times : ℕ → Map (List ℕ) → Map (List ℕ)
unfolding delete
prune_times cutoff [] = []
prune_times cutoff ((k, ts) ∷ m) =
    let rest = delete k (prune_times cutoff m) in
    let kept = select (ltb cutoff) ts in if nonempty kept then (k, kept) ∷ rest else rest

-- The latest of a key's times, Go's zero time if there is none.
latest_from : ℕ → List ℕ → ℕ
latest_from latest [] = latest
latest_from latest (t ∷ ts) = latest_from (if ltb latest t then t else latest) ts

latest : List ℕ → ℕ
unfolding latest_from
latest ts = latest_from 0 ts

pub evict_oldest_locked : ℕ → FailCounter → FailCounter
unfolding prune_times evict_oldest latest
evict_oldest_locked now c =
    let pruned = prune_times (now - c.max_window) c.entries in
    if ltb (length pruned) max_entries
    then record c { entries = pruned }
    else record c { entries = evict_oldest latest (max_entries * 9 / 10) pruned }

-- The first test of `record`: a new key finds a full counter.
unfoldable pub must_evict : Text → FailCounter → Bool
unfolding has_key
must_evict key c = not (has_key key c.entries) && leb max_entries (length c.entries)

-- `record`
unfoldable pub record_fail : ℕ → Text → FailCounter → FailCounter
unfolding must_evict
record_fail now key c =
    let room = if must_evict key c then evict_oldest_locked now c else c in
    record room { entries = put key (times_of (lookup key room.entries) ++ now ∷ []) room.entries }

unfoldable pub count_in : ℕ → ℕ → Text → FailCounter → ℕ
count_in now window key c = count (ltb (now - window)) (times_of (lookup key c.entries))

unfoldable pub reset : Text → FailCounter → FailCounter
reset key c = record c { entries = delete key c.entries }

-- The new counter, and how many keys it had.
unfoldable pub reset_all : FailCounter → FailCounter × ℕ
reset_all c = (record c { entries = [] }, length c.entries)

-- One round of `gcLoop`.
unfoldable pub gc : ℕ → FailCounter → FailCounter
unfolding prune_times
gc now c = record c { entries = prune_times (now - c.max_window) c.entries }
