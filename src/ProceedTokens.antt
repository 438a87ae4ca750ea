-- ===== src/ProceedTokens.antt =====
-- portal/auth_proceed.go: `proceedTokenStore`, the opaque tokens that /auth/start hands out, each good
-- for one redirect. The time of a call and the 16 random bytes behind a token are arguments.
pub mod SingleUse
pub mod Kept
use wi_fi_roaming_with_i_kua.Prelude.{
  ℕ, ◌+◌, ◌*◌, ◌/◌, Bool, true, false, List, [], ◌∷◌, Option, none, some, length, if◌then◌else◌,
  ltb, leb,
}
use wi_fi_roaming_with_i_kua.Text.{Text}
use wi_fi_roaming_with_i_kua.Maps.{Map, lookup, put, delete, keep}
use wi_fi_roaming_with_i_kua.Maps.Evict.{evict_oldest}

-- maxProceedEntries
abbrev pub max_proceed_entries : ℕ
max_proceed_entries = 50000

pub record ProceedEntry : Type 0 where
  pub url : Text
  pub session_state : Text
  pub email : Text
  pub expires : ℕ

pub record ProceedTokenStore : Type 0 where
  pub entries : Map ProceedEntry
  pub ttl : ℕ

pub new_proceed_token_store : ℕ → ProceedTokenStore
new_proceed_token_store ttl = record { entries = []; ttl = ttl }

-- The loop that deletes what `now` is after.
unfoldable pub prune_expired : ℕ → Map ProceedEntry → Map ProceedEntry
unfolding keep
prune_expired now entries = keep (λ e. leb now e.expires) entries

unfoldable pub make_room : ℕ → Map ProceedEntry → Map ProceedEntry
unfolding prune_expired evict_oldest
make_room now entries =
    if leb max_proceed_entries (length entries)
    then (let pruned = prune_expired now entries in
        if leb max_proceed_entries (length pruned)
        then evict_oldest (λ e. e.expires) (max_proceed_entries * 9 / 10) pruned
        else pruned)
    else entries

-- `put`: the new store. `none` is a failure of the random source, the token being `randomHex(16)`.
unfoldable pub put_token :
    ℕ → Option Text → Text → Text → Text → ProceedTokenStore → ProceedTokenStore × Option Text
unfolding make_room
put_token now none url session_state email s = (s, none)
put_token now (some token) url session_state email s = (
  record s {
    entries =
        put token
          (record {
            url = url;
            session_state = session_state;
            email = email;
            expires = now + s.ttl;
          })
          (make_room now s.entries);
  },
  some token,
)

-- The end of `take`: an expired entry is as good as none.
abbrev pub unexpired : ℕ → Option ProceedEntry → Option ProceedEntry
unexpired now none = none
unexpired now (some e) = if ltb e.expires now then none else some e

-- `take`
unfoldable pub take_token : ℕ → Text → ProceedTokenStore → ProceedTokenStore × Option ProceedEntry
take_token now token s = elim (lookup token s.entries) [
  | none ↦ (s, none)
  | some e ↦ (record s { entries = delete token s.entries }, unexpired now (some e))
]

-- One round of `gcLoop`.
unfoldable pub sweep : ℕ → ProceedTokenStore → ProceedTokenStore
unfolding prune_expired
sweep now s = record s { entries = prune_expired now s.entries }
