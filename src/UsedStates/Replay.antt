-- ===== src/UsedStates/Replay.antt =====
-- A consumed state is not accepted again before it expires.
use wi_fi_roaming_with_i_kua.Prelude.{
  ℕ, ◌+◌, ◌≤◌, ◌<◌, ◌≡◌, true, false, List, [], ◌∷◌, some, length, leb, arith, ap,
}
use wi_fi_roaming_with_i_kua.Text.{Text}
use wi_fi_roaming_with_i_kua.Text.Laws.{text_eq_iff, text_eq_refl}
use wi_fi_roaming_with_i_kua.Maps.{lookup, keep}
use wi_fi_roaming_with_i_kua.Maps.Laws.{lookup-put, lookup-keep, length-put-le, length-keep-le}
use wi_fi_roaming_with_i_kua.Maps.Evict.{length-evict_oldest}
use wi_fi_roaming_with_i_kua.UsedStates.{
  UsedStateSet, max_used_states, is_used, prune_expired, make_room, mark_used, sweep,
}

-- What happens to the set: a callback marks a state, or the sweep runs.
pub data Call : Type 0 where
  marks : Text → Call
  sweeps : Call

pub step : ℕ × Call → UsedStateSet → UsedStateSet
step (now, marks state) s = (mark_used now state s).0
step (now, sweeps) s = sweep now s

unfoldable pub run : List (ℕ × Call) → UsedStateSet → UsedStateSet
run [] s = s
run (c ∷ cs) s = run cs (step c s)

-- Every call comes at the given time or before it.
abbrev pub Until : ℕ → List (ℕ × Call) → Type 0
Until later [] = Unit {0}
Until later ((now, c) ∷ cs) = (now ≤ later) × Until later cs

-- The set holds the state with an expiry after `later`.
record Holds (state : Text) (later : ℕ) (s : UsedStateSet) : Type 0 where
  exp : ℕ
  held : lookup state s.states ≡ some exp
  fresh : later < exp

length-make_room : (now : ℕ) (s : UsedStateSet) → length (make_room now s.states) < max_used_states
unfolding make_room prune_expired
length-make_room now s =
    ground (arith, length-evict_oldest (λ exp. exp) 45000 (keep (leb now) s.states))

-- The set stays within its cap.
pub used_states_bounded :
    (c : ℕ × Call) (s : UsedStateSet)
    → length s.states ≤ max_used_states
    → length (step c s).states ≤ max_used_states
unfolding step mark_used sweep prune_expired
used_states_bounded (now, marks state) s h =
    ground
      (arith, length-make_room now s, length-put-le state (now + s.ttl) (make_room now s.states))
used_states_bounded (now, sweeps) s h = omega (arith, length-keep-le (leb now) s.states)

length-mark_used :
    (now : ℕ) (state : Text) (s : UsedStateSet)
    → length s.states < max_used_states
    → length (mark_used now state s).0.states ≤ length s.states + 1
unfolding mark_used make_room
length-mark_used now state s h = ground (arith, length-put-le state (now + s.ttl) s.states)

length-step :
    (c : ℕ × Call) (s : UsedStateSet)
    → length s.states < max_used_states
    → length (step c s).states ≤ length s.states + 1
unfolding step sweep prune_expired
length-step (now, marks state) s h = length-mark_used now state s h
length-step (now, sweeps) s h = omega (arith, length-keep-le (leb now) s.states)

-- A state that the set holds is refused, and the set stays as it is.
refused :
    (state : Text) (now later : ℕ) (s : UsedStateSet)
    → now ≤ later
    → Holds state later s
    → mark_used now state s ≡ (s, false)
unfolding mark_used is_used
refused state now later s past h = ground (arith, h.held, h.fresh)

lookup-mark_used :
    (state other : Text) (now later : ℕ) (s : UsedStateSet)
    → now ≤ later
    → length s.states < max_used_states
    → (h : Holds state later s) → lookup state (mark_used now other s).0.states ≡ some h.exp
unfolding mark_used make_room is_used
lookup-mark_used state other now later s past room h =
    ground (
      arith,
      lookup-put other state (now + s.ttl) s.states,
      text_eq_iff other state,
      h.held,
      h.fresh,
    )

step-Holds :
    (state : Text) (now later : ℕ) (c : Call) (s : UsedStateSet)
    → now ≤ later
    → length s.states < max_used_states
    → Holds state later s
    → Holds state later (step (now, c) s)
unfolding step sweep prune_expired
step-Holds state now later (marks other) s past room h = record {
  exp = h.exp;
  held = lookup-mark_used state other now later s past room h;
  fresh = h.fresh;
}
step-Holds state now later sweeps s past room h = record {
  exp = h.exp;
  held = ground (arith, lookup-keep (leb now) state s.states, h.held, h.fresh);
  fresh = h.fresh;
}

run-Holds :
    (cs : List (ℕ × Call)) (state : Text) (later : ℕ) (s : UsedStateSet)
    → Until later cs
    → length s.states + length cs ≤ max_used_states
    → Holds state later s
    → Holds state later (run cs s)
unfolding run
run-Holds [] state later s past room h = h
run-Holds ((now, c) ∷ cs) state later s past room h =
    run-Holds cs state later (step (now, c) s) past.1 (omega (arith, length-step (now, c) s))
      (step-Holds state now later c s past.0 (omega arith) h)

held_after :
    (now : ℕ) (state : Text) (s : UsedStateSet)
    → (mark_used now state s).1 ≡ true
    → lookup state (mark_used now state s).0.states ≡ some (now + s.ttl)
unfolding mark_used
held_after now state s accepted =
    ground
      (arith, lookup-put state state (now + s.ttl) (make_room now s.states), text_eq_refl state)

-- Once a state was accepted, it is refused again at any time before its expiry, whatever other
-- callbacks and sweeps come between, as long as they are too few to fill the set.
pub no_replay :
    (now later : ℕ) (state : Text) (s : UsedStateSet) (cs : List (ℕ × Call))
    → (mark_used now state s).1 ≡ true
    → later < now + s.ttl
    → Until later cs
    → length s.states + length cs < max_used_states
    → (mark_used later state (run cs (mark_used now state s).0)).1 ≡ false
no_replay now later state s cs accepted fresh past room =
    let after = (mark_used now state s).0 in
    let held =
      run-Holds cs state later after past (omega (arith, length-mark_used now state s))
        (record { exp = now + s.ttl; held = held_after now state s accepted; fresh = fresh }) in
    ap (λ r. r.1) (refused state later later (run cs after) (omega arith) held)
