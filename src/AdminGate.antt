-- ===== src/AdminGate.antt =====
-- portal/main.go and portal/oidc.go: who gets to the administration. url.Parse, up to the scheme and
-- the host, is a parameter; an absent header is the empty text. Times are in seconds.
pub mod Access
pub mod SessionCookie
use wi_fi_roaming_with_i_kua.Prelude.{
  ℕ, ◌+◌, Bool, true, false, ◌&&◌, ◌||◌, not, List, [], ◌∷◌, ◌++◌, Option, none, some,
  if◌then◌else◌, ltb, length, map,
}
use wi_fi_roaming_with_i_kua.Text.{
  Text, bytes, text_eq, is_empty, to_lower, to_upper, trim_space, has_substring, contains,
}
use wi_fi_roaming_with_i_kua.ClientIp.{split}
use wi_fi_roaming_with_i_kua.Config.{Config, is_admin_enabled, is_admin_email, folded, has_folded}
use wi_fi_roaming_with_i_kua.Config.Runtime.{trim_right_slashes}
use wi_fi_roaming_with_i_kua.Cookies.{
  Codec, AdminSession, Session, Read, good, bad, read_admin_cookie, write_admin_cookie,
  admin_session_ttl, new_admin_prelogin_session, write_session_cookie,
}

-- The parts of a request that are read.
pub record WebRequest : Type 0 where
  pub http_method : Text
  pub host : Text
  pub is_tls : Bool
  pub forwarded_proto : Text
  pub origin : Text
  pub referer : Text
  pub admin_cookie : Option Text

unfoldable pub first_part : List Text → Text
first_part [] = []
first_part (p ∷ parts) = p

-- requestOrigin
unfoldable pub request_origin : Config → WebRequest → Text
request_origin cfg r =
    let direct = if r.is_tls then bytes "https" else bytes "http" in
    let scheme =
      if cfg.trust_proxy && not (is_empty r.forwarded_proto)
      then to_lower (trim_space (first_part (split b',' r.forwarded_proto)))
      else direct in
    scheme ++ (bytes "://" ++ r.host)

-- UserInfo: the name and the groups.
pub record UserInfo : Type 0 where
  pub upn : Text
  pub groups : List Text

-- UserInfo.IsGuest
unfoldable pub is_guest_upn : Text → Bool
is_guest_upn upn = has_substring (to_upper upn) (bytes "#EXT#")

unfoldable pub any_allowed : List Text → List Text → Bool
any_allowed allow [] = false
any_allowed allow (g ∷ groups) = contains (folded g) allow || any_allowed allow groups

-- UserInfo.IsAdmin
unfoldable pub is_admin : Config → UserInfo → Bool
is_admin cfg u =
    if is_admin_email cfg u.upn
    then true
    else if not (ltb 0 (length cfg.admin_group_ids)) || not (ltb 0 (length u.groups))
    then false
    else any_allowed (map folded cfg.admin_group_ids) u.groups

-- What requireAdmin answers where it does not admit.
pub data Refusal : Type 0 where
  admin_disabled : Refusal
  cross_origin : Refusal
  not_logged_in : Refusal

pub data Gate : Type 0 where
  admits : AdminSession → Gate
  refuses : Refusal → Gate

-- The status of a refusal: the login page instead of 401 where the caller is a page.
unfoldable pub refusal_status : Bool → Refusal → ℕ
refusal_status api_mode admin_disabled = if api_mode then 503 else 404
refusal_status api_mode cross_origin = 403
refusal_status api_mode not_logged_in = if api_mode then 401 else 302

module _ (parse_url : Text → Option (Text × Text)) where
  -- isSameOriginRequest
  unfoldable pub is_same_origin : Config → WebRequest → Bool
  is_same_origin cfg r =
      let expected = trim_right_slashes cfg.public_url in
      let self = request_origin cfg r in
      let accepts : Text → Bool = (λ got. text_eq got expected || text_eq got self) in
      if not (is_empty r.origin)
      then accepts (trim_right_slashes r.origin)
      else if not (is_empty r.referer)
      then elim (parse_url r.referer) [
        | none ↦ false
        | some u ↦
            if is_empty u.0 || is_empty u.1 then false else accepts (u.0 ++ (bytes "://" ++ u.1))
      ]
      else false

  -- requireAdmin
  unfoldable pub require_admin : Codec → ℕ → Config → WebRequest → Gate
  require_admin c now cfg r =
      let reads = text_eq r.http_method (bytes "GET") || text_eq r.http_method (bytes "HEAD") in
      if not (is_admin_enabled cfg)
      then refuses admin_disabled
      else if not reads && not (is_same_origin cfg r)
      then refuses cross_origin
      else elim (read_admin_cookie c cfg.session_secret now r.admin_cookie) [
        | good s ↦ admits s
        | bad e ↦ refuses not_logged_in
      ]

-- The answers of the login pages.
pub data LoginAnswer : Type 0 where
  shows_login : LoginAnswer
  to_admin : LoginAnswer
  refused : ℕ → LoginAnswer
  to_provider : Session → Text → LoginAnswer
  signed_in : Text → Text → LoginAnswer
  denied : Text → LoginAnswer

-- handleAdminLogin
unfoldable pub handle_admin_login : Codec → ℕ → Config → Option Text → LoginAnswer
handle_admin_login c now cfg cookie =
    if not (is_admin_enabled cfg)
    then refused 404
    else elim (read_admin_cookie c cfg.session_secret now cookie) [
      | good s ↦ to_admin
      | bad e ↦ shows_login
    ]

-- handleAdminLoginStart, over a client of the provider: the session and its cookie.
unfoldable pub handle_admin_login_start :
    Codec → ℕ → Config → Text → Option Text → Option Text → Text → LoginAnswer
handle_admin_login_start c now cfg http_method state drawn lang =
    if not (is_admin_enabled cfg)
    then refused 404
    else if not (text_eq http_method (bytes "POST"))
    then refused 405
    else elim (new_admin_prelogin_session now state drawn lang) [
      | none ↦ refused 500
      | some s ↦ to_provider s (write_session_cookie c cfg.session_secret s).0
    ]

-- adminGrantReason
unfoldable pub admin_grant_reason : Config → UserInfo → Text
admin_grant_reason cfg u = if is_admin_email cfg u.upn then bytes "email_list" else bytes "group"

-- finishAdminLogin: the cookie and the detail of the event, or the detail of the denial.
unfoldable pub finish_admin_login : Codec → ℕ → Config → UserInfo → LoginAnswer
finish_admin_login c now cfg u =
    if is_guest_upn u.upn || not (is_admin cfg u)
    then denied (bytes "admin login rejected (not in allow-list)")
    else signed_in
        (write_admin_cookie c cfg.session_secret
          record { upn = u.upn; exp = now + admin_session_ttl }).0
        (bytes "admin login via=" ++ admin_grant_reason cfg u)
