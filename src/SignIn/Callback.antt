-- ===== src/SignIn/Callback.antt =====
-- portal/main.go: `handleCallback` and `handleDuoCallback`, the return from the identity provider and
-- from Duo. What the provider answers to a code is a parameter.
pub mod Admission
use wi_fi_roaming_with_i_kua.Prelude.{
  ℕ, Bool, true, false, ◌||◌, not, List, [], ◌∷◌, Option, none, some, if◌then◌else◌, ltb, length,
}
use wi_fi_roaming_with_i_kua.Text.{Text, bytes, is_empty, text_eq, to_upper, has_substring}
use wi_fi_roaming_with_i_kua.Database.{Faults, after_faults}
use wi_fi_roaming_with_i_kua.UsedStates.{mark_used}
use wi_fi_roaming_with_i_kua.RateLimit.{clear_successful_auth_state}
use wi_fi_roaming_with_i_kua.Denylist.{DeniedMac, is_mac_denied}
use wi_fi_roaming_with_i_kua.SignIn.{
  Session, LoginResult, Method, Portal, Profile, Grant, Response, log_login,
}

-- The query of a callback; an absent parameter is the empty text.
pub record CallbackQuery : Type 0 where
  pub error : Text
  pub state : Text
  pub code : Text
  pub duo_code : Text

-- UserInfo.IsGuest, of the UPN.
unfoldable pub is_guest : Text → Bool
unfolding has_substring to_upper
is_guest upn = has_substring (to_upper upn) (bytes "#EXT#")

-- The end of both handlers: statement 0 looks the device up, 1 and 2 clear its address's cooldowns.
unfoldable pub admit :
    Faults → Text → Session → Text → Method → Profile → Portal → Portal × Response
unfolding is_mac_denied clear_successful_auth_state
admit fs client sess upn method profile p =
    let denied_log =
      log_login upn LoginResult.denied method sess.mac sess.user_ip (bytes "mac_denylist") p in
    let logged = log_login upn LoginResult.success method sess.mac sess.user_ip [] p in
    let limits =
      clear_successful_auth_state (after_faults 1 fs) client sess.email sess.mac sess.user_ip
        (upn ∷ []) logged.limits in
    elim (is_mac_denied (fs 0) sess.mac p.denylist) [
      | some row ↦ (denied_log, Response.refuses 403 (bytes "errors.rateLimitedPermanent"))
      | none ↦ (
        record logged { limits = limits },
        Response.grants (record {
          ip = sess.user_ip;
          mac = sess.mac;
          upn = upn;
          profile = profile;
          timeout = none;
        }),
      )
    ]

-- The answer to a state that markUsed refuses: the log line slices off eight bytes of it.
unfoldable pub refuse_replay : Session → Response
refuse_replay sess =
    if ltb (length sess.state) 8
    then Response.crashes
    else Response.refuses 400 (bytes "errors.generic")

module _ (exchange : Text → Text → Option Text) where
  -- The rest of handleCallback for a user whose UPN the exchange gave.
  unfoldable pub callback_user : Faults → Text → Session → Text → Portal → Portal × Response
  unfolding is_guest text_eq admit
  callback_user fs client sess upn p =
      if text_eq sess.purpose (bytes "admin")
      then (p, Response.signs_admin_in upn)
      else if is_guest upn
      then (
        log_login upn LoginResult.denied Method.sso sess.mac sess.user_ip (bytes "guest_blocked") p,
        Response.refuses 403 (bytes "errors.guestBlocked"),
      )
      else admit fs client sess upn Method.sso Profile.sso_profile p

  -- handleCallback. The exchange takes the code and the session's nonce.
  unfoldable pub handle_callback :
      Faults → ℕ → Text → Option Session → CallbackQuery → Portal → Portal × Response
  unfolding mark_used text_eq is_empty callback_user
  handle_callback fs now client none q p = (p, Response.refuses 400 (bytes "errors.sessionLost"))
  handle_callback fs now client (some sess) q p =
      let generic = Response.refuses 400 (bytes "errors.generic") in
      let marked = mark_used now sess.state p.used_states in
      let p' = record p { used_states = marked.0 } in
      if not (is_empty q.error)
      then (p, generic)
      else if not (text_eq q.state sess.state)
      then (p, generic)
      else if not (marked.1)
      then (p', refuse_replay sess)
      else if is_empty q.code
      then (p', generic)
      else elim (exchange q.code sess.nonce) [
        | none ↦ (p', Response.refuses 401 (bytes "errors.generic"))
        | some upn ↦ callback_user fs client sess upn p'
      ]

-- handleDuoCallback. The exchange, absent when Duo is off, takes the code and the session's email.
unfoldable pub handle_duo_callback :
    Option (Text → Text → Option Text)
    → Faults
    → ℕ
    → Text
    → Option Session
    → CallbackQuery
    → Portal
    → Portal × Response
unfolding mark_used text_eq is_empty admit
handle_duo_callback none fs now client cookie q p =
    (p, Response.refuses 503 (bytes "errors.generic"))
handle_duo_callback (some exchange) fs now client none q p =
    (p, Response.refuses 400 (bytes "errors.sessionLost"))
handle_duo_callback (some exchange) fs now client (some sess) q p =
    let generic = Response.refuses 400 (bytes "errors.generic") in
    let marked = mark_used now sess.state p.used_states in
    let p' = record p { used_states = marked.0 } in
    let duo_code = if is_empty q.duo_code then q.code else q.duo_code in
    if not (text_eq q.state sess.state)
    then (p, generic)
    else if not (marked.1)
    then (p', refuse_replay sess)
    else if not (is_empty q.error)
    then (p', generic)
    else if is_empty duo_code
    then (p', generic)
    else if is_empty sess.email
    then (p', Response.refuses 400 (bytes "errors.sessionLost"))
    else elim (exchange duo_code sess.email) [
      | none ↦ (p', Response.refuses 401 (bytes "errors.generic"))
      | some upn ↦ admit fs client sess upn Method.duo Profile.duo_profile p'
    ]
