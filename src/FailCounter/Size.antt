-- ===== src/FailCounter/Size.antt =====
-- The counter never holds more keys than its cap.
use wi_fi_roaming_with_i_kua.Prelude.{
  ℕ, ◌-◌, ◌≤◌, ◌<◌, List, [], ◌∷◌, ◌++◌, length, arith, inl, inr, Bool-cases,
}
use wi_fi_roaming_with_i_kua.Text.{Text}
use wi_fi_roaming_with_i_kua.Maps.{Map, lookup}
use wi_fi_roaming_with_i_kua.Maps.Laws.{length-put-le, length-put_has, length-delete-le}
use wi_fi_roaming_with_i_kua.Maps.Evict.{length-evict_oldest}
use wi_fi_roaming_with_i_kua.FailCounter.{
  FailCounter, max_entries, times_of, prune_times, latest, evict_oldest_locked, must_evict,
  record_fail,
}

abbrev pub IsBounded : FailCounter → Type 0
IsBounded c = length c.entries ≤ max_entries

length-prune_times : (cutoff : ℕ) (m : Map (List ℕ)) → length (prune_times cutoff m) ≤ length m
unfolding prune_times
length-prune_times cutoff [] = omega arith
length-prune_times cutoff ((k, ts) ∷ m) =
    ground (arith, length-delete-le k (prune_times cutoff m), length-prune_times cutoff m)

length-evict_oldest_locked :
    (now : ℕ) (c : FailCounter) → length (evict_oldest_locked now c).entries < max_entries
unfolding evict_oldest_locked
length-evict_oldest_locked now c =
    ground (arith, length-evict_oldest latest 90000 (prune_times (now - c.max_window) c.entries))

-- Recording a failure keeps the counter within its cap, whatever the key.
pub record_fail-IsBounded :
    (now : ℕ) (key : Text) (c : FailCounter) → IsBounded c → IsBounded (record_fail now key c)
unfolding record_fail must_evict
record_fail-IsBounded now key c h = elim (Bool-cases (must_evict key c)) [
  | inl full ↦
      rw (full, record_fail)
        (omega (
          arith,
          length-evict_oldest_locked now c,
          length-put-le key (times_of (lookup key (evict_oldest_locked now c).entries) ++ now ∷ [])
              (evict_oldest_locked now c).entries,
        ))
  | inr room ↦
      rw (room, record_fail)
        (let ts = times_of (lookup key c.entries) ++ now ∷ [] in
          ground (arith, length-put-le key ts c.entries, length-put_has key ts c.entries))
]
