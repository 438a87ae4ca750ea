-- ===== src/ProceedTokens/SingleUse.antt =====
-- A token opens its own redirect, in time, and once.
use wi_fi_roaming_with_i_kua.Prelude.{
  ℕ, ◌+◌, ◌≡◌, ◌≢◌, refl, List, [], ◌∷◌, none, some, leb, if◌then◌else◌, arith, ltb,
}
use wi_fi_roaming_with_i_kua.Text.{Text}
use wi_fi_roaming_with_i_kua.Text.Laws.{text_eq_iff, text_eq_refl}
use wi_fi_roaming_with_i_kua.Maps.{Map, lookup, keep}
use wi_fi_roaming_with_i_kua.Maps.Laws.{lookup-put, lookup-delete, lookup-keep}
use wi_fi_roaming_with_i_kua.Maps.Evict.{lookup-evict_oldest-none}
use wi_fi_roaming_with_i_kua.ProceedTokens.{
  ProceedEntry, ProceedTokenStore, prune_expired, make_room, put_token, take_token, sweep,
}

-- What happens to the store: /auth/start puts a token, /auth/proceed takes one, or the sweep runs.
pub data Call : Type 0 where
  puts : Text → Text → Text → Text → Call
  takes : Text → Call
  sweeps : Call

unfoldable pub step : ℕ × Call → ProceedTokenStore → ProceedTokenStore
step (now, puts token url session_state email) s =
    (put_token now (some token) url session_state email s).0
step (now, takes token) s = (take_token now token s).0
step (now, sweeps) s = sweep now s

unfoldable pub run : List (ℕ × Call) → ProceedTokenStore → ProceedTokenStore
run [] s = s
run (c ∷ cs) s = run cs (step c s)

-- The random source does not make the token again.
abbrev pub Fresh : Text → List (ℕ × Call) → Type 0
Fresh token [] = Unit {0}
Fresh token ((now, puts other url session_state email) ∷ cs) = (other ≢ token) × Fresh token cs
Fresh token ((now, takes other) ∷ cs) = Fresh token cs
Fresh token ((now, sweeps) ∷ cs) = Fresh token cs

lookup-make_room-none :
    (now : ℕ) (token : Text) (m : Map ProceedEntry)
    → lookup token m ≡ none
    → lookup token (make_room now m) ≡ none
unfolding make_room prune_expired
lookup-make_room-none now token m h =
    let pruned = keep (λ (e : ProceedEntry). leb now e.expires) m in
    ground (
      arith,
      lookup-keep (λ (e : ProceedEntry). leb now e.expires) token m,
      lookup-evict_oldest-none (λ (e : ProceedEntry). e.expires) 45000 token pruned,
    )

step_absent :
    (token : Text) (c : ℕ × Call) (cs : List (ℕ × Call)) (s : ProceedTokenStore)
    → Fresh token (c ∷ cs)
    → lookup token s.entries ≡ none
    → lookup token (step c s).entries ≡ none
unfolding step put_token take_token sweep prune_expired
step_absent token (now, puts other url session_state email) cs s fresh h = ground (
  arith,
  lookup-put other token
      (record { url = url; session_state = session_state; email = email; expires = now + s.ttl })
      (make_room now s.entries),
  lookup-make_room-none now token s.entries h,
  text_eq_iff other token,
)
step_absent token (now, takes other) cs s fresh h =
    ground (arith, lookup-delete other token s.entries)
step_absent token (now, sweeps) cs s fresh h =
    ground (arith, lookup-keep (λ (e : ProceedEntry). leb now e.expires) token s.entries)

Fresh-tail :
    (token : Text) (c : ℕ × Call) (cs : List (ℕ × Call)) → Fresh token (c ∷ cs) → Fresh token cs
Fresh-tail token (now, puts other url session_state email) cs h = h.1
Fresh-tail token (now, takes other) cs h = h
Fresh-tail token (now, sweeps) cs h = h

run_absent :
    (token : Text) (cs : List (ℕ × Call)) (s : ProceedTokenStore)
    → Fresh token cs
    → lookup token s.entries ≡ none
    → lookup token (run cs s).entries ≡ none
unfolding run
run_absent token [] s fresh h = h
run_absent token (c ∷ cs) s fresh h =
    run_absent token cs (step c s) (Fresh-tail token c cs fresh) (step_absent token c cs s fresh h)

take_token_gone :
    (now : ℕ) (token : Text) (s : ProceedTokenStore)
    → lookup token (take_token now token s).0.entries ≡ none
unfolding take_token
take_token_gone now token s =
    ground (arith, lookup-delete token token s.entries, text_eq_refl token)

-- After a token was taken, no later take of it succeeds, whatever else happens to the store, unless
-- the random source makes the same token again.
pub take_token_once :
    (now later : ℕ) (token : Text) (s : ProceedTokenStore) (cs : List (ℕ × Call))
    → Fresh token cs
    → (take_token later token (run cs (take_token now token s).0)).1 ≡ none
unfolding take_token
take_token_once now later token s cs fresh =
    rw
      (
        run_absent token cs (take_token now token s).0 fresh (take_token_gone now token s),
        take_token,
      )
      refl

-- A take returns the entry that was put under its token, exactly until the entry expires.
pub take_token-put_token :
    (now later : ℕ) (token url session_state email : Text) (s : ProceedTokenStore)
    → (take_token later token (put_token now (some token) url session_state email s).0).1 ≡ (
        if ltb (now + s.ttl) later
        then none
        else some (record {
          url = url;
          session_state = session_state;
          email = email;
          expires = now + s.ttl;
        }))
unfolding take_token put_token
take_token-put_token now later token url session_state email s = ground (
  arith,
  lookup-put token token
      (record { url = url; session_state = session_state; email = email; expires = now + s.ttl })
      (make_room now s.entries),
  text_eq_refl token,
)
