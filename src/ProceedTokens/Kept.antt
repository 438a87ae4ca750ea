-- ===== src/ProceedTokens/Kept.antt =====
-- A token that was put, until it is taken.
use wi_fi_roaming_with_i_kua.Prelude.{
  ℕ, ◌+◌, ◌≤◌, ◌<◌, ◌≡◌, ◌≢◌, List, [], ◌∷◌, some, length, leb, arith, ◌∙◌,
}
use wi_fi_roaming_with_i_kua.Text.{Text}
use wi_fi_roaming_with_i_kua.Text.Laws.{text_eq_iff, text_eq_refl}
use wi_fi_roaming_with_i_kua.Maps.{Map, lookup, keep}
use wi_fi_roaming_with_i_kua.Maps.Laws.{
  lookup-put, lookup-delete, lookup-keep, length-put-le, length-keep-le, length-delete-le,
}
use wi_fi_roaming_with_i_kua.Maps.Evict.{length-evict_oldest}
use wi_fi_roaming_with_i_kua.ProceedTokens.{
  ProceedEntry, ProceedTokenStore, max_proceed_entries, prune_expired, make_room, put_token,
  take_token, sweep,
}
use wi_fi_roaming_with_i_kua.ProceedTokens.SingleUse.{puts, takes, sweeps, Call, step, run}

-- The calls come no later than a time, and none puts or takes the token.
abbrev pub Untouched : ℕ → Text → List (ℕ × Call) → Type 0
Untouched until token [] = Unit {0}
Untouched until token ((now, puts other url session_state email) ∷ cs) =
    (now ≤ until) × (other ≢ token) × Untouched until token cs
Untouched until token ((now, takes other) ∷ cs) =
    (now ≤ until) × (other ≢ token) × Untouched until token cs
Untouched until token ((now, sweeps) ∷ cs) = (now ≤ until) × Untouched until token cs

lookup-put_token_other :
    (now : ℕ) (other token url session_state email : Text) (s : ProceedTokenStore)
    → other ≢ token
    → length s.entries < max_proceed_entries
    → lookup token (put_token now (some other) url session_state email s).0.entries
      ≡ lookup token s.entries
unfolding put_token make_room
lookup-put_token_other now other token url session_state email s ne room = ground (
  arith,
  ne,
  lookup-put other token
      (record { url = url; session_state = session_state; email = email; expires = now + s.ttl })
      s.entries,
  text_eq_iff other token,
)

pub length-put_token :
    (now : ℕ) (other url session_state email : Text) (s : ProceedTokenStore)
    → length s.entries < max_proceed_entries
    → length (put_token now (some other) url session_state email s).0.entries ≤ length s.entries + 1
unfolding put_token make_room
length-put_token now other url session_state email s room = ground (
  arith,
  length-put-le other
      (record { url = url; session_state = session_state; email = email; expires = now + s.ttl })
      s.entries,
)

lookup-take_token_other :
    (now : ℕ) (other token : Text) (s : ProceedTokenStore)
    → other ≢ token
    → lookup token (take_token now other s).0.entries ≡ lookup token s.entries
unfolding take_token
lookup-take_token_other now other token s ne =
    ground (arith, ne, lookup-delete other token s.entries, text_eq_iff other token)

length-take_token :
    (now : ℕ) (other : Text) (s : ProceedTokenStore)
    → length (take_token now other s).0.entries ≤ length s.entries
unfolding take_token
length-take_token now other s = ground (arith, length-delete-le other s.entries)

lookup-sweep :
    (now : ℕ) (token : Text) (e : ProceedEntry) (s : ProceedTokenStore)
    → now ≤ e.expires
    → lookup token s.entries ≡ some e
    → lookup token (sweep now s).entries ≡ some e
unfolding sweep prune_expired
lookup-sweep now token e s early held =
    ground (arith, held, lookup-keep (λ (x : ProceedEntry). leb now x.expires) token s.entries)

length-sweep : (now : ℕ) (s : ProceedTokenStore) → length (sweep now s).entries ≤ length s.entries
unfolding sweep prune_expired
length-sweep now s = length-keep-le (λ (x : ProceedEntry). leb now x.expires) s.entries

-- An entry stays where it is through calls that leave its token alone, while it has not expired and
-- the store is not full.
pub run_kept :
    (until : ℕ) (token : Text) (e : ProceedEntry) (cs : List (ℕ × Call)) (s : ProceedTokenStore)
    → until ≤ e.expires
    → Untouched until token cs
    → length s.entries + length cs ≤ max_proceed_entries
    → lookup token s.entries ≡ some e
    → lookup token (run cs s).entries ≡ some e
unfolding run step
run_kept until token e [] s fresh h room held = held
run_kept until token e ((now, puts other url session_state email) ∷ cs) s fresh h room held =
    run_kept until token e cs (put_token now (some other) url session_state email s).0 fresh h.2
      (omega
        (arith, room, length-put_token now other url session_state email s (omega (arith, room))))
      (lookup-put_token_other now other token url session_state email s h.1 (omega (arith, room))
        ∙ held)
run_kept until token e ((now, takes other) ∷ cs) s fresh h room held =
    run_kept until token e cs (take_token now other s).0 fresh h.2
      (omega (arith, room, length-take_token now other s))
      (lookup-take_token_other now other token s h.1 ∙ held)
run_kept until token e ((now, sweeps) ∷ cs) s fresh h room held =
    run_kept until token e cs (sweep now s) fresh h.1 (omega (arith, room, length-sweep now s))
      (lookup-sweep now token e s (omega (arith, h.0, fresh)) held)

-- A token that was just put is there.
pub lookup-put_token :
    (now : ℕ) (token url session_state email : Text) (s : ProceedTokenStore)
    → lookup token (put_token now (some token) url session_state email s).0.entries
      ≡ some (record {
        url = url;
        session_state = session_state;
        email = email;
        expires = now + s.ttl;
      })
unfolding put_token
lookup-put_token now token url session_state email s = ground (
  arith,
  lookup-put token token
      (record { url = url; session_state = session_state; email = email; expires = now + s.ttl })
      (make_room now s.entries),
  text_eq_refl token,
)

-- A take before an entry expires returns it.
pub take_token-held :
    (later : ℕ) (token : Text) (e : ProceedEntry) (s : ProceedTokenStore)
    → lookup token s.entries ≡ some e
    → later ≤ e.expires
    → (take_token later token s).1 ≡ some e
unfolding take_token
take_token-held later token e s held early = ground (arith, held)

length-make_room : (now : ℕ) (m : Map ProceedEntry) → length (make_room now m) < max_proceed_entries
unfolding make_room prune_expired
length-make_room now m =
    let pruned = keep (λ (e : ProceedEntry). leb now e.expires) m in
    ground (arith, length-evict_oldest (λ (e : ProceedEntry). e.expires) 45000 pruned)

-- The store stays within its cap through any call.
pub proceed_tokens_bounded :
    (c : ℕ × Call) (s : ProceedTokenStore)
    → length s.entries ≤ max_proceed_entries
    → length (step c s).entries ≤ max_proceed_entries
unfolding step put_token take_token sweep prune_expired
proceed_tokens_bounded (now, puts token url session_state email) s h = omega (
  arith,
  length-make_room now s.entries,
  length-put-le token
      (record { url = url; session_state = session_state; email = email; expires = now + s.ttl })
      (make_room now s.entries),
)
proceed_tokens_bounded (now, takes token) s h = ground (arith, length-delete-le token s.entries)
proceed_tokens_bounded (now, sweeps) s h =
    omega (arith, length-keep-le (λ (e : ProceedEntry). leb now e.expires) s.entries)
