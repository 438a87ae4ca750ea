-- ===== src/SignIn/Start.antt =====
-- portal/main.go: `handleAuthStart`, and portal/auth_proceed.go: `handleAuthProceed`: the choice of the
-- identity provider behind a token, and its redirect. Duo's clients and url.QueryEscape are parameters.
pub mod Proceed
use wi_fi_roaming_with_i_kua.Prelude.{
  ℕ, ◌-◌, Bool, true, false, ◌&&◌, ◌||◌, not, List, [], ◌∷◌, ◌++◌, Option, none, some, length,
  count, if◌then◌else◌, leb, ltb, ◌==◌,
}
use wi_fi_roaming_with_i_kua.Text.{
  Text, bytes, is_empty, text_eq, trim_space, to_lower, index_of, after_last,
}
use wi_fi_roaming_with_i_kua.Database.{Faults, after_faults}
use wi_fi_roaming_with_i_kua.FailCounter.{record_fail, count_in}
use wi_fi_roaming_with_i_kua.ProceedTokens.{ProceedEntry, put_token, take_token}
use wi_fi_roaming_with_i_kua.RateLimit.{Thresholds}
use wi_fi_roaming_with_i_kua.Denylist.{DeniedMac, is_mac_denied}
use wi_fi_roaming_with_i_kua.SignIn.{
  Session, LoginResult, Method, Portal, Retry, Response, Rule, log_login, write_rate_limited,
  banned_ip, record_failure, without_session,
}

-- The bytes that isValidEmail lets through.
unfoldable pub is_email_byte : ℕ → Bool
is_email_byte c =
    c == b'@'
    || c == b'.'
    || c == b'-'
    || c == b'_'
    || c == b'+'
    || leb b'a' c && leb c b'z'
    || leb b'0' c && leb c b'9'

unfoldable pub all_bytes : (ℕ → Bool) → Text → Bool
all_bytes ok [] = true
all_bytes ok (c ∷ s) = ok c && all_bytes ok s

-- isValidEmail
unfoldable pub is_valid_email : Text → Bool
unfolding is_empty index_of all_bytes is_email_byte
is_valid_email s = elim (index_of s b'@') [
  | none ↦ false
  | some at ↦
      not (is_empty s)
      && leb (length s) 254
      && ltb 0 at
      && ltb at (length s - 1)
      && count (λ c. c == b'@') s == 1
      && all_bytes is_email_byte s
]

unfoldable pub domain_listed : Text → List Text → Bool
unfolding text_eq to_lower trim_space
domain_listed domain [] = false
domain_listed domain (d ∷ allowed) =
    text_eq (to_lower (trim_space d)) domain || domain_listed domain allowed

-- isAllowedDomain
unfoldable pub is_allowed_domain : Text → List Text → Bool
unfolding after_last to_lower domain_listed
is_allowed_domain email allowed = elim (after_last email b'@') [
  | none ↦ false
  | some domain ↦ domain_listed (to_lower domain) allowed
]

pub record Preauth : Type 0 where
  pub result : Text
  pub devices : ℕ

-- The clients of Duo: `Preauth` and `AuthURL`, `none` for an error.
pub record DuoClients : Type 0 where
  pub preauth : Text → Option Preauth
  pub auth_url : Text → Text → Option Text

pub data ProceedKind : Type 0 where
  proceed_entra : ProceedKind
  proceed_duo : ProceedKind
  proceed_deny : ProceedKind

-- The destination for what Duo said of an account.
unfoldable pub duo_route : DuoClients → Text → Text → Text → Preauth → Text × ProceedKind
unfolding text_eq
duo_route duo sso_url email state pre =
    let entra : Text × ProceedKind = (sso_url, ProceedKind.proceed_entra) in
    let prompt : Text × ProceedKind = elim (duo.auth_url email state) [
      | none ↦ entra
      | some url ↦ (url, ProceedKind.proceed_duo)
    ] in
    if text_eq pre.result (bytes "auth")
    then (if ltb 0 pre.devices then prompt else entra)
    else if text_eq pre.result (bytes "deny")
    then (sso_url, ProceedKind.proceed_deny)
    else entra

-- The settings and the surroundings of handleAuthStart.
pub record StartConfig : Type 0 where
  pub thresholds : Thresholds
  pub duo_enabled : Bool
  pub allowed_email_domains : List Text

-- What the handler reads of a request: `is_post` is whether its method is POST, `cookie_written` is whether the session with the email
-- could be sealed, `token` the random token, if the source gave one.
pub record StartRequest : Type 0 where
  pub is_post : Bool
  pub client : Text
  pub email : Text
  pub cookie_written : Bool
  pub token : Option Text

module _ (query_escape : Text → Text) where
  -- The real destination: the identity provider, unless Duo has a device of the account.
  unfoldable pub route : Option DuoClients → Text → Text → Text × ProceedKind
  unfolding duo_route
  route none email state = (bytes "/login?hint=" ++ query_escape email, ProceedKind.proceed_entra)
  route (some duo) email state =
      let sso_url = bytes "/login?hint=" ++ query_escape email in
      elim (duo.preauth email) [
        | none ↦ (sso_url, ProceedKind.proceed_entra)
        | some pre ↦ duo_route duo sso_url email state pre
      ]

  abbrev pub method_of : ProceedKind → Method
  method_of ProceedKind.proceed_entra = Method.sso
  method_of ProceedKind.proceed_duo = Method.duo
  method_of ProceedKind.proceed_deny = Method.sso

  -- The end of handleAuthStart: the token, then the pending failure and the event.
  unfoldable pub hand_out :
      Option DuoClients → ℕ → Option Text → Text → Session → Portal → Portal × Response
  unfolding route put_token record_fail
  hand_out duo now token email sess p =
      let (url, kind) = route duo email sess.state in
      let (store, put) = put_token now token url sess.state email p.proceed_store in
      let counted = record p {
        proceed_store = store;
        limits = record (p.limits) {
          auth_email_fails = record_fail now email p.limits.auth_email_fails;
        };
      } in
      elim put [
        | none ↦ (record p { proceed_store = store }, Response.refuses 500 (bytes "internal"))
        | some token ↦ (
          log_login email LoginResult.started (method_of kind) sess.mac sess.user_ip
              (bytes "auth_start") counted,
          Response.answers (bytes "/auth/proceed?token=" ++ token),
        )
      ]

  -- Too many failures of the email: statements 0 to 7 record this one, 8 to 10 look for a ban.
  unfoldable pub limit_email :
      Faults → ℕ → Bool → StartRequest → Text → Session → Thresholds → Portal → Portal × Response
  unfolding record_failure banned_ip write_rate_limited
  limit_email fs now over_short r email sess cfg p =
      let recorded = record_failure fs now r.client (some sess.user_ip) cfg p in
      let (p', banned) = banned_ip (after_faults 8 fs) now r.client (some sess.user_ip) recorded in
      let logged = λ (ip rule : Text).
        log_login email LoginResult.rate_limited Method.sso sess.mac ip rule p' in
      elim banned [
        | some ip ↦ write_rate_limited (fs 10) now Rule.ip_ban ip cfg (logged ip (bytes "ip_ban"))
        | none ↦
            if over_short
            then write_rate_limited (fs 10) now Rule.email_short r.client cfg
                (logged r.client (bytes "email_short"))
            else write_rate_limited (fs 10) now Rule.email_long r.client cfg
                (logged r.client (bytes "email_long"))
      ]

  -- The handler from the email on: up to eleven statements.
  unfoldable pub start_email :
      Option DuoClients
      → Faults
      → ℕ
      → StartRequest
      → Session
      → StartConfig
      → Portal
      → Portal × Response
  unfolding is_valid_email is_allowed_domain record_failure count_in limit_email hand_out to_lower
      trim_space
  start_email duo fs now r sess cfg p =
      let email = to_lower (trim_space r.email) in
      let limits = cfg.thresholds in
      let recorded = record_failure fs now r.client (some sess.user_ip) limits p in
      let short_n = count_in now limits.auth_email_window_short email p.limits.auth_email_fails in
      let long_n = count_in now limits.auth_email_window_long email p.limits.auth_email_fails in
      let over_short = leb limits.auth_email_fails_short short_n in
      let over_long = leb limits.auth_email_fails_long long_n in
      if not (is_valid_email email)
      then (recorded, Response.refuses 400 (bytes "invalid_email"))
      else if cfg.duo_enabled && not (is_allowed_domain email cfg.allowed_email_domains)
      then (recorded, Response.refuses 400 (bytes "invalid_domain"))
      else if over_short || over_long
      then limit_email fs now over_short r email sess limits p
      else if not r.cookie_written
      then (p, Response.refuses 500 (bytes "cookie_write"))
      else hand_out duo now r.token email (record sess { email = email }) p

  -- handleAuthStart after the test of the method: statements 0 to 2 look for a ban and its end, 3 looks the
  -- device up.
  unfoldable pub start_form :
      Option DuoClients
      → Faults
      → ℕ
      → StartRequest
      → Option Session
      → StartConfig
      → Portal
      → Portal × Response
  unfolding banned_ip write_rate_limited without_session is_mac_denied start_email
  start_form duo fs now r none cfg p = without_session fs now r.client cfg.thresholds p
  start_form duo fs now r (some sess) cfg p =
      let (p', banned) = banned_ip fs now r.client (some sess.user_ip) p in
      elim banned [
        | some ip ↦ write_rate_limited (fs 2) now Rule.ip_ban ip cfg.thresholds p'
        | none ↦ elim (is_mac_denied (fs 3) sess.mac p'.denylist) [
          | some row ↦ (p', Response.limits_rate Retry.permanent)
          | none ↦ start_email duo (after_faults 4 fs) now r sess cfg p'
        ]
      ]

  -- handleAuthStart
  unfoldable pub handle_auth_start :
      Option DuoClients
      → Faults
      → ℕ
      → StartRequest
      → Option Session
      → StartConfig
      → Portal
      → Portal × Response
  handle_auth_start duo fs now r cookie cfg p =
      if r.is_post
      then start_form duo fs now r cookie cfg p
      else (p, Response.refuses 405 (bytes "method_not_allowed"))

-- handleAuthProceed: statement 0 looks the device up.
unfoldable pub handle_auth_proceed : Bool → ℕ → Option Session → Text → Portal → Portal × Response
unfolding is_mac_denied is_empty take_token text_eq
handle_auth_proceed fails now none token p = (p, Response.refuses 400 (bytes "errors.sessionLost"))
handle_auth_proceed fails now (some sess) token p =
    let taken = take_token now token p.proceed_store in
    let p' = record p { proceed_store = taken.0 } in
    let denied_log =
      log_login (bytes "(unknown)") LoginResult.denied Method.unnamed sess.mac sess.user_ip
        (bytes "mac_denylist") p in
    elim (is_mac_denied fails sess.mac p.denylist) [
      | some row ↦ (denied_log, Response.refuses 403 (bytes "errors.rateLimitedPermanent"))
      | none ↦
          if is_empty token
          then (p, Response.refuses 400 (bytes "errors.expired"))
          else elim taken.1 [
            | none ↦ (p', Response.refuses 400 (bytes "errors.expired"))
            | some entry ↦
                if text_eq entry.session_state sess.state
                then (p', Response.redirects entry.url)
                else (p', Response.refuses 400 (bytes "errors.generic"))
          ]
    ]
