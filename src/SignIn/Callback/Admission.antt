-- ===== src/SignIn/Callback/Admission.antt =====
-- Who is let onto the network by a callback, and how often.
use wi_fi_roaming_with_i_kua.Prelude.{
  ℕ, ◌+◌, ◌<◌, ◌≡◌, ◌≢◌, sym, ap, ◌∙◌, true, false, List, Option, none, some, length, arith,
  Option-cases, inl, inr,
}
use wi_fi_roaming_with_i_kua.Text.{Text, bytes, text_eq}
use wi_fi_roaming_with_i_kua.Text.Laws.{text_eq_iff}
use wi_fi_roaming_with_i_kua.Database.{Faults}
use wi_fi_roaming_with_i_kua.UsedStates.{max_used_states, mark_used}
use wi_fi_roaming_with_i_kua.UsedStates.Replay
use wi_fi_roaming_with_i_kua.UsedStates.Replay.{Until, no_replay}
use wi_fi_roaming_with_i_kua.Denylist.{is_mac_denied}
use wi_fi_roaming_with_i_kua.SignIn.{Session, Method, Portal, Profile, Grant, Response}
use wi_fi_roaming_with_i_kua.SignIn.Callback.{
  refuse_replay, CallbackQuery, is_guest, admit, callback_user, handle_callback,
}

-- The grant of a session's device.
abbrev pub grant_of : Session → Text → Profile → Grant
grant_of sess upn profile = record {
  ip = sess.user_ip;
  mac = sess.mac;
  upn = upn;
  profile = profile;
  timeout = none;
}

-- What the end of both handlers has checked when it grants.
admit_checks :
    (fs : Faults) (client : Text) (sess : Session) (upn : Text) (method : Method)
    (profile : Profile) (p : Portal) (g : Grant)
    → (admit fs client sess upn method profile p).1 ≡ Response.grants g
    → (is_mac_denied (fs 0) sess.mac p.denylist ≡ none)
      × (Response.grants g ≡ Response.grants (grant_of sess upn profile))
unfolding admit
admit_checks fs client sess upn method profile p g granted =
    elim (Option-cases (is_mac_denied (fs 0) sess.mac p.denylist)) [
      | inl e ↦ (e, ground (arith, e, granted))
      | inr (row, e) ↦ ground (arith, e, granted)
    ]

used_states-admit :
    (fs : Faults) (client : Text) (sess : Session) (upn : Text) (method : Method)
    (profile : Profile) (p : Portal)
    → (admit fs client sess upn method profile p).0.used_states ≡ p.used_states
unfolding admit
used_states-admit fs client sess upn method profile p = ground arith

-- What a session and an answer of the provider must satisfy.
pub record AdmitsMember (exchange : Text → Text → Option Text) (fs : Faults) (now : ℕ)
    (sess : Session) (q : CallbackQuery) (p : Portal) (g : Grant) : Type 0 where
  pub upn : Text
  pub exchanged : exchange q.code sess.nonce ≡ some upn
  pub state_matches : q.state ≡ sess.state
  pub state_is_new : (mark_used now sess.state p.used_states).1 ≡ true
  pub is_wifi : text_eq sess.purpose (bytes "admin") ≡ false
  pub is_member : is_guest upn ≡ false
  pub allowed : is_mac_denied (fs 0) sess.mac p.denylist ≡ none
  pub granted : Response.grants g ≡ Response.grants (grant_of sess upn Profile.sso_profile)

module _ (exchange : Text → Text → Option Text) where
  checks :
      (fs : Faults) (now : ℕ) (client : Text) (sess : Session) (q : CallbackQuery) (p : Portal)
      (g : Grant)
      → (handle_callback exchange fs now client (some sess) q p).1 ≡ Response.grants g
      → (text_eq q.state sess.state ≡ true)
        × ((mark_used now sess.state p.used_states).1 ≡ true)
        × ((upn : Text) × ((exchange q.code sess.nonce ≡ some upn)
              × (handle_callback exchange fs now client (some sess) q p
                  ≡ callback_user exchange fs client sess upn
                      (record p { used_states = (mark_used now sess.state p.used_states).0 }))))
  unfolding handle_callback refuse_replay
  checks fs now client sess q p g granted = elim (Option-cases (exchange q.code sess.nonce)) [
    | inl e ↦ ground (arith, granted, e)
    | inr (upn, e) ↦ (
      ground (arith, granted, e),
      ground (arith, granted, e),
      (upn, (e, ground (arith, granted, e))),
    )
  ]

  user_checks :
      (fs : Faults) (client : Text) (sess : Session) (upn : Text) (p : Portal) (g : Grant)
      → (callback_user exchange fs client sess upn p).1 ≡ Response.grants g
      → (text_eq sess.purpose (bytes "admin") ≡ false)
        × (is_guest upn ≡ false)
        × (callback_user exchange fs client sess upn p
            ≡ admit fs client sess upn Method.sso Profile.sso_profile p)
  unfolding callback_user
  user_checks fs client sess upn p g granted = ground (arith, granted)

  -- A callback that lets a device onto the network comes from a session whose state the query carries
  -- and markUsed accepts as new; the provider gave a UPN for the code and the session's nonce, which is
  -- no guest's; the session is not an administrator's; the device is not denied, as far as the lookup
  -- tells; and the grant is for the session's device and that UPN.
  pub callback_admits :
      (fs : Faults) (now : ℕ) (client : Text) (sess : Session) (q : CallbackQuery) (p : Portal)
      (g : Grant)
      → (handle_callback exchange fs now client (some sess) q p).1 ≡ Response.grants g
      → AdmitsMember exchange fs now sess q p g
  callback_admits fs now client sess q p g granted =
      let c = checks fs now client sess q p g granted in
      let upn = c.2.0 in
      let p' = record p { used_states = (mark_used now sess.state p.used_states).0 } in
      let u = user_checks fs client sess upn p' g (sym (ap (λ r. r.1) c.2.1.1) ∙ granted) in
      let a =
        admit_checks fs client sess upn Method.sso Profile.sso_profile p' g
          (sym (ap (λ r. r.1) (c.2.1.1 ∙ u.2)) ∙ granted) in
      record {
        upn = upn;
        exchanged = c.2.1.0;
        state_matches = (text_eq_iff q.state sess.state).0 c.0;
        state_is_new = c.1;
        is_wifi = u.0;
        is_member = u.1;
        allowed = a.0;
        granted = a.1;
      }

  used_states-handle_callback :
      (fs : Faults) (now : ℕ) (client : Text) (sess : Session) (q : CallbackQuery) (p : Portal)
      (g : Grant)
      → (handle_callback exchange fs now client (some sess) q p).1 ≡ Response.grants g
      → (handle_callback exchange fs now client (some sess) q p).0.used_states
        ≡ (mark_used now sess.state p.used_states).0
  used_states-handle_callback fs now client sess q p g granted =
      let c = checks fs now client sess q p g granted in
      let upn = c.2.0 in
      let p' = record p { used_states = (mark_used now sess.state p.used_states).0 } in
      let u = user_checks fs client sess upn p' g (sym (ap (λ r. r.1) c.2.1.1) ∙ granted) in
      ap (λ r. r.0.used_states) (c.2.1.1 ∙ u.2)
      ∙ used_states-admit fs client sess upn Method.sso Profile.sso_profile p'

  -- The callback of the identity provider grants a state once in a process: after handleCallback has
  -- granted, no handleCallback of the same process, of any session with that state, from any client
  -- and with any query, grants before the state expires, if what happened to the set of states in
  -- between are other marks and sweeps, and too few of them to fill it.
  pub callback_admits_once :
      (fs fs' : Faults) (now later : ℕ) (client client' : Text) (sess other : Session)
      (q q' : CallbackQuery) (p p' : Portal) (g g' : Grant) (cs : List (ℕ × Replay.Call))
      → (handle_callback exchange fs now client (some sess) q p).1 ≡ Response.grants g
      → p'.used_states
        ≡ Replay.run cs (handle_callback exchange fs now client (some sess) q p).0.used_states
      → other.state ≡ sess.state
      → later < now + p.used_states.ttl
      → Until later cs
      → length p.used_states.states + length cs < max_used_states
      → (handle_callback exchange fs' later client' (some other) q' p').1 ≢ Response.grants g'
  callback_admits_once fs fs' now later client client' sess other q q' p p' g g' cs granted between
        same fresh past room again =
      let first = checks fs now client sess q p g granted in
      let second = checks fs' later client' other q' p' g' again in
      let states =
        between
        ∙ ap (Replay.run cs) (used_states-handle_callback fs now client sess q p g granted) in
      let refused = no_replay now later sess.state p.used_states cs first.1 fresh past room in
      ground (arith, refused, second.1, states, same)
