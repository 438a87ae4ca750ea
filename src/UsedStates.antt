-- ===== src/UsedStates.antt =====
-- portal/ratelimit.go: `usedStateSet`, the OIDC states that a callback has consumed, each with its
-- expiry. The time of a call is an argument.
pub mod Replay
use wi_fi_roaming_with_i_kua.Prelude.{
  ℕ, ◌+◌, ◌*◌, ◌/◌, Bool, true, false, List, [], ◌∷◌, Option, none, some, length, if◌then◌else◌,
  ltb, leb,
}
use wi_fi_roaming_with_i_kua.Text.{Text, is_empty}
use wi_fi_roaming_with_i_kua.Maps.{Map, lookup, put, keep}
use wi_fi_roaming_with_i_kua.Maps.Evict.{evict_oldest}

-- maxUsedStates
abbrev pub max_used_states : ℕ
max_used_states = 50000

pub record UsedStateSet : Type 0 where
  pub states : Map ℕ
  pub ttl : ℕ

pub new_used_state_set : ℕ → UsedStateSet
new_used_state_set ttl = record { states = []; ttl = ttl }

-- `exp, ok := s.states[state]; ok && now.Before(exp)`
unfoldable pub is_used : ℕ → Option ℕ → Bool
is_used now none = false
is_used now (some exp) = ltb now exp

-- The loop that deletes what `now` is after.
unfoldable pub prune_expired : ℕ → Map ℕ → Map ℕ
unfolding keep
prune_expired now states = keep (leb now) states

-- Room for one more state: the expired ones go, and if that is not enough the earliest expiries.
unfoldable pub make_room : ℕ → Map ℕ → Map ℕ
unfolding prune_expired evict_oldest
make_room now states =
    if leb max_used_states (length states)
    then (let pruned = prune_expired now states in
        if leb max_used_states (length pruned)
        then evict_oldest (λ exp. exp) (max_used_states * 9 / 10) pruned
        else pruned)
    else states

-- The new set, and whether the state was accepted.
unfoldable pub mark_used : ℕ → Text → UsedStateSet → UsedStateSet × Bool
unfolding is_empty is_used lookup make_room
mark_used now state s =
    if is_empty state
    then (s, false)
    else if is_used now (lookup state s.states)
    then (s, false)
    else (record s { states = put state (now + s.ttl) (make_room now s.states) }, true)

-- One round of `gcLoop`.
unfoldable pub sweep : ℕ → UsedStateSet → UsedStateSet
unfolding prune_expired
sweep now s = record s { states = prune_expired now s.states }
