-- ===== src/SignIn.antt =====
-- portal/main.go and portal/auth_proceed.go: the handlers that let a device onto the network. A
-- handler is a function of the portal's state and the request; its answer is the response that it
-- writes. The session is what the signed cookie holds, none if it does not read. The end of a grant,
-- the redirect to the router, is the arguments that it is built from.
pub mod Redeem
pub mod Callback
pub mod Start
use wi_fi_roaming_with_i_kua.Prelude.{
  ℕ, ◌+◌, ◌-◌, ◌/◌, Bool, true, false, List, [], ◌∷◌, ◌++◌, Option, none, some, if◌then◌else◌,
}
use wi_fi_roaming_with_i_kua.Text.{Text, bytes}
use wi_fi_roaming_with_i_kua.Database.{Faults, after_faults}
use wi_fi_roaming_with_i_kua.UsedStates.{UsedStateSet}
use wi_fi_roaming_with_i_kua.ProceedTokens.{ProceedTokenStore}
use wi_fi_roaming_with_i_kua.IpBans.{second, expiry_of}
use wi_fi_roaming_with_i_kua.RateLimit.{
  Thresholds, Limits, is_permanent, banned_ip_for_request, record_request_failure,
}
use wi_fi_roaming_with_i_kua.GuestCodes.Rows.{Tables}
use wi_fi_roaming_with_i_kua.Denylist.{DeniedMac}

-- The fields of `Session` that the handlers read, but the language.
pub record Session : Type 0 where
  pub user_ip : Text
  pub mac : Text
  pub state : Text
  pub nonce : Text
  pub email : Text
  pub purpose : Text

pub data LoginResult : Type 0 where
  success : LoginResult
  denied : LoginResult
  rate_limited : LoginResult
  started : LoginResult

pub data Method : Type 0 where
  sso : Method
  duo : Method
  guest_code : Method
  unnamed : Method

-- What logLogin appends to the event log.
pub record Event : Type 0 where
  pub subject : Text
  pub result : LoginResult
  pub method : Method
  pub mac : Text
  pub ip : Text
  pub detail : Text

-- The parts of `App` that the handlers share.
pub record Portal : Type 0 where
  pub limits : Limits
  pub used_states : UsedStateSet
  pub proceed_store : ProceedTokenStore
  pub denylist : List DeniedMac
  pub guest_codes : Tables
  pub events : List Event

-- The profile that a grant asks the router's policy of.
pub data Profile : Type 0 where
  sso_profile : Profile
  duo_profile : Profile
  guest_profile : Profile

-- The arguments of buildWebAuthURL; the timeout is set for guests only.
pub record Grant : Type 0 where
  pub ip : Text
  pub mac : Text
  pub upn : Text
  pub profile : Profile
  pub timeout : Option ℕ

-- The hints in the body of a 429.
pub data Retry : Type 0 where
  no_hint : Retry
  permanent : Retry
  retry_after : ℕ → Retry
  unban_at : ℕ → ℕ → Retry

pub data Response : Type 0 where
  refuses : ℕ → Text → Response
  limits_rate : Retry → Response
  redirects : Text → Response
  grants : Grant → Response
  answers : Text → Response
  signs_admin_in : Text → Response
  crashes : Response

pub data Rule : Type 0 where
  ip_ban : Rule
  email_short : Rule
  email_long : Rule
  mac_rule : Rule

abbrev pub log_login : Text → LoginResult → Method → Text → Text → Text → Portal → Portal
log_login subject result method mac ip detail p = record p {
  events =
      p.events
      ++ record {
        subject = subject;
        result = result;
        method = method;
        mac = mac;
        ip = ip;
        detail = detail;
      }
        ∷ [];
}

-- What writeRateLimited says of the expiry it finds.
unfoldable pub ban_hint : ℕ → Option ℕ → Retry
unfolding is_permanent
ban_hint now none = no_hint
ban_hint now (some exp) =
    if is_permanent exp then permanent else unban_at ((exp - now) / second) (exp / second)

-- writeRateLimited
unfoldable pub write_rate_limited : Bool → ℕ → Rule → Text → Thresholds → Portal → Portal × Response
unfolding expiry_of ban_hint
write_rate_limited fails now ip_ban ip cfg p =
    let (view, exp) = expiry_of fails now ip p.limits.ban_table p.limits.ban_view in
    let limits = record (p.limits) { ban_view = view } in
    (record p { limits = limits }, limits_rate (ban_hint now exp))
write_rate_limited fails now email_short ip cfg p =
    (p, limits_rate (retry_after (cfg.auth_email_window_short / second)))
write_rate_limited fails now email_long ip cfg p =
    (p, limits_rate (retry_after (cfg.auth_email_window_long / second)))
write_rate_limited fails now mac_rule ip cfg p =
    (p, limits_rate (retry_after (cfg.guest_code_mac_window / second)))

-- bannedIPForRequest on the portal: statements 0 and 1.
unfoldable pub banned_ip : Faults → ℕ → Text → Option Text → Portal → Portal × Option Text
banned_ip fails now client user_ip p =
    let (limits, banned) = banned_ip_for_request fails now client user_ip p.limits in
    (record p { limits = limits }, banned)

-- recordRequestFailure on the portal: up to eight statements.
unfoldable pub record_failure : Faults → ℕ → Text → Option Text → Thresholds → Portal → Portal
record_failure fails now client user_ip cfg p = record p {
  limits = record_request_failure fails now client user_ip cfg p.limits;
}

-- The start of the handlers that take a form, for a request whose session does not read: statements
-- 0 to 2 look for a ban and its end, 3 on record the failure.
unfoldable pub without_session : Faults → ℕ → Text → Thresholds → Portal → Portal × Response
unfolding banned_ip record_failure write_rate_limited
without_session fs now client cfg p =
    let (p', banned) = banned_ip fs now client none p in
    elim banned [
      | none ↦ (
        record_failure (after_faults 3 fs) now client none cfg p',
        refuses 400 (bytes "session_lost"),
      )
      | some ip ↦ write_rate_limited (fs 2) now ip_ban ip cfg p'
    ]
