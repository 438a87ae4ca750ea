-- ===== src/SignIn/Redeem.antt =====
-- portal/main.go: `handleGuestCode`, the redemption of a guest code.
pub mod Guests
use wi_fi_roaming_with_i_kua.Prelude.{
  ℕ, ◌-◌, Bool, true, false, not, List, [], ◌∷◌, ◌++◌, Option, none, some, length, drop,
  if◌then◌else◌, leb,
}
use wi_fi_roaming_with_i_kua.Text.{Text, bytes, trim_space}
use wi_fi_roaming_with_i_kua.Database.{Faults, after_faults}
use wi_fi_roaming_with_i_kua.FailCounter.{record_fail, count_in}
use wi_fi_roaming_with_i_kua.RateLimit.{Thresholds, clear_successful_auth_state}
use wi_fi_roaming_with_i_kua.GuestCodes.Rows.{GuestCode}
use wi_fi_roaming_with_i_kua.GuestCodes.Store.{validate}
use wi_fi_roaming_with_i_kua.Denylist.{DeniedMac, is_mac_denied}
use wi_fi_roaming_with_i_kua.SignIn.{
  Session, LoginResult, Method, Portal, Profile, Grant, Retry, Response, Rule, log_login,
  write_rate_limited, banned_ip, record_failure, without_session,
}

-- tailN, of an ASCII text.
unfoldable pub tail_n : ℕ → Text → Text
tail_n n s = if leb (length s) n then s else drop (length s - n) s

-- What the handler reads of a request: whether its method is POST, the client's address, the form's
-- code, and the guest's number, `randomHex(4)`, none if the random source fails.
pub record GuestRequest : Type 0 where
  pub is_post : Bool
  pub client : Text
  pub code : Text
  pub guest_id : Option Text

-- Too many failures of the device: statements 0 to 7 record this one, 8 to 10 look for a ban.
unfoldable pub limit_device : Faults → ℕ → Text → Session → Thresholds → Portal → Portal × Response
unfolding record_failure banned_ip write_rate_limited
limit_device fs now client sess cfg p =
    let recorded = record_failure fs now client (some sess.user_ip) cfg p in
    let logged =
      log_login (bytes "(guest)") LoginResult.rate_limited Method.guest_code sess.mac client
        (bytes "mac") recorded in
    let (p', banned) = banned_ip (after_faults 8 fs) now client (some sess.user_ip) logged in
    elim banned [
      | none ↦ write_rate_limited (fs 10) now Rule.mac_rule client cfg p'
      | some ip ↦ write_rate_limited (fs 10) now Rule.ip_ban ip cfg p'
    ]

-- A code that Validate refused: up to eight statements.
unfoldable pub refuse_code : Faults → ℕ → Text → Session → Thresholds → Portal → Portal × Response
unfolding record_fail record_failure
refuse_code fs now client sess cfg p =
    let counted = record p {
      limits = record (p.limits) {
        guest_code_fails = record_fail now sess.mac p.limits.guest_code_fails;
      };
    } in
    let recorded = record_failure fs now client (some sess.user_ip) cfg counted in
    (
      log_login (bytes "(guest)") LoginResult.denied Method.guest_code sess.mac sess.user_ip
          (bytes "invalid_code") recorded,
      Response.refuses 401 (bytes "invalid_code"),
    )

-- A code that Validate accepted: up to two statements.
unfoldable pub grant_guest : Faults → Text → Session → Text → GuestCode → Portal → Portal × Response
unfolding tail_n clear_successful_auth_state
grant_guest fs client sess upn c p =
    let logged =
      log_login upn LoginResult.success Method.guest_code sess.mac sess.user_ip
        (bytes "code-suffix=" ++ tail_n 4 c.code) p in
    let limits =
      clear_successful_auth_state fs client sess.email sess.mac sess.user_ip [] logged.limits in
    (
      record logged { limits = limits },
      Response.grants (record {
        ip = sess.user_ip;
        mac = sess.mac;
        upn = upn;
        profile = Profile.guest_profile;
        timeout = some c.duration_min;
      }),
    )

-- The redemption: statements 0 to 4 are Validate's.
unfoldable pub redeem_code :
    Faults → ℕ → GuestRequest → Session → Thresholds → Portal → Portal × Response
unfolding validate refuse_code grant_guest trim_space
redeem_code fs now r sess cfg p = elim r.guest_id [
  | none ↦ (p, Response.refuses 500 (bytes "random_failed"))
  | some guest_id ↦
      let upn = bytes "Guest-" ++ guest_id in
      let (codes, c) =
        validate fs now (trim_space r.code) sess.mac sess.user_ip upn p.guest_codes in
      let p' = record p { guest_codes = codes } in
      elim c [
        | none ↦ refuse_code (after_faults 5 fs) now r.client sess cfg p'
        | some code ↦ grant_guest (after_faults 5 fs) r.client sess upn code p'
      ]
]

-- The handler for a session that reads, once its address is not banned: statement 0 looks the device
-- up.
unfoldable pub check_device :
    Faults → ℕ → GuestRequest → Session → Thresholds → Portal → Portal × Response
unfolding is_mac_denied count_in limit_device redeem_code
check_device fs now r sess cfg p =
    let fails = count_in now cfg.guest_code_mac_window sess.mac p.limits.guest_code_fails in
    let denied_log =
      log_login (bytes "(guest)") LoginResult.denied Method.guest_code sess.mac r.client
        (bytes "mac_denylist") p in
    elim (is_mac_denied (fs 0) sess.mac p.denylist) [
      | some row ↦ (denied_log, Response.limits_rate Retry.permanent)
      | none ↦
          if leb cfg.guest_code_mac_fails fails
          then limit_device (after_faults 1 fs) now r.client sess cfg p
          else redeem_code (after_faults 1 fs) now r sess cfg p
    ]

-- handleGuestCode after the test of the method: statements 0 to 2 look for a ban and its end.
unfoldable pub redeem_form :
    Bool → Faults → ℕ → GuestRequest → Option Session → Thresholds → Portal → Portal × Response
unfolding banned_ip write_rate_limited without_session check_device
redeem_form false fs now r cookie cfg p = (p, Response.refuses 503 (bytes "guest_disabled"))
redeem_form true fs now r none cfg p = without_session fs now r.client cfg p
redeem_form true fs now r (some sess) cfg p =
    let (p', banned) = banned_ip fs now r.client (some sess.user_ip) p in
    elim banned [
      | some ip ↦ write_rate_limited (fs 2) now Rule.ip_ban ip cfg p'
      | none ↦ check_device (after_faults 3 fs) now r sess cfg p'
    ]

-- handleGuestCode
unfoldable pub handle_guest_code :
    Bool → Faults → ℕ → GuestRequest → Option Session → Thresholds → Portal → Portal × Response
handle_guest_code admin_enabled fs now r cookie cfg p =
    if r.is_post
    then redeem_form admin_enabled fs now r cookie cfg p
    else (p, Response.refuses 405 (bytes "method_not_allowed"))
