-- ===== src/LocalAdmin/Login.antt =====
-- portal/localadmin.go: the networks a local administrator may come from, and the handler of the login.
-- net.ParseIP, whether an address is of IPv4, net.ParseCIDR and Contains are parameters; `client` is
-- what clientIP gives. Times are in nanoseconds, those of a cookie in seconds.
use wi_fi_roaming_with_i_kua.Prelude.{
  ℕ, ◌+◌, ◌/◌, ◌≡◌, ◌⊎◌, inl, inr, Bool, true, false, ◌||◌, not, List, [], ◌∷◌, ◌++◌, Option, none,
  some, if◌then◌else◌, arith,
}
use wi_fi_roaming_with_i_kua.Text.{Text, bytes, text_eq, is_empty, trim_space, has_substring}
use wi_fi_roaming_with_i_kua.ClientIp.{split}
use wi_fi_roaming_with_i_kua.Database.{Faults, after_faults}
use wi_fi_roaming_with_i_kua.RateLimit.{Limits, Thresholds, record_ip_failure}
use wi_fi_roaming_with_i_kua.IpBans.{second, is_banned}
use wi_fi_roaming_with_i_kua.EventLog.{Table, log_admin_action}
use wi_fi_roaming_with_i_kua.Config.{Config}
use wi_fi_roaming_with_i_kua.Cookies.{Codec, write_admin_cookie, admin_session_ttl}
use wi_fi_roaming_with_i_kua.AdminGate.{WebRequest, is_same_origin}
use wi_fi_roaming_with_i_kua.LocalAdmin.{Accounts, Outcome, authenticate_local_admin}

-- localAdminUPN
unfoldable pub local_admin_upn : Text → Text
local_admin_upn username = username ++ bytes "@local"

-- The package net.
pub record Networks : Type 1 where
  pub Ip : Type 0
  pub Net : Type 0
  pub parse_ip : Text → Option Ip
  pub is_ipv4 : Ip → Bool
  pub parse_cidr : Text → Option Net
  pub holds : Net → Ip → Bool

-- What the handler changes, and what it answers.
pub record LoginPortal : Type 0 where
  pub accounts : Accounts
  pub limits : Limits
  pub events : Table

pub data LoginPage : Type 0 where
  not_found : LoginPage
  shows_form : LoginPage
  fails_with : ℕ → Text → LoginPage
  signs_in : Text → LoginPage

pub record LoginForm : Type 0 where
  pub username : Text
  pub password : List ℕ

-- An account that was accepted, or another outcome.
is_refusal : Outcome → Bool
is_refusal Outcome.database_error = true
is_refusal Outcome.invalid = true
is_refusal Outcome.disabled = true
is_refusal Outcome.locked = true
is_refusal (Outcome.accepted name) = false

module _ (n : Networks) where
  -- A bare address with the length of a host route.
  unfoldable pub host_route : Text → Text
  host_route part = elim (n.parse_ip part) [
    | none ↦ part
    | some ip ↦ part ++ (if n.is_ipv4 ip then bytes "/32" else bytes "/128")
  ]

  -- The loop of localAdminAllowedFrom, none where a network does not parse.
  unfoldable pub networks_of : List Text → Option (List n.Net)
  networks_of [] = some []
  networks_of (raw ∷ parts) =
      let part = trim_space raw in
      let route = if has_substring part (bytes "/") then part else host_route part in
      let rest = networks_of parts in
      let parsed : Option (List n.Net) = elim (n.parse_cidr route) [
        | none ↦ none
        | some net ↦ elim rest [ none ↦ none | some nets ↦ some (net ∷ nets) ]
      ] in
      if is_empty part then rest else parsed

  -- localAdminAllowedFrom
  unfoldable pub local_admin_allowed_from : Text → Option (List n.Net)
  local_admin_allowed_from spec =
      let s = trim_space spec in if is_empty s then some [] else networks_of (split b',' s)

  unfoldable pub any_holds : List n.Net → n.Ip → Bool
  any_holds [] ip = false
  any_holds (net ∷ nets) ip = n.holds net ip || any_holds nets ip

  -- ipAllowed
  unfoldable pub ip_allowed : List n.Net → Text → Bool
  ip_allowed [] addr = true
  ip_allowed (net ∷ nets) addr = elim (n.parse_ip addr) [
    | none ↦ false
    | some ip ↦ any_holds (net ∷ nets) ip
  ]

  -- The POST of the login, from an address that is allowed. Statements: 0 reads the cooldowns, 1 and 2
  -- are those of the account, 3 records the event, the others count the failure.
  unfoldable pub log_in :
      (List ℕ → Text → Bool)
      → Codec
      → Faults
      → ℕ
      → Thresholds
      → Config
      → Text
      → LoginForm
      → LoginPortal
      → LoginPortal × LoginPage
  log_in verify c fails now cfg config client f p =
      let username = trim_space f.username in
      let looked = is_banned (fails 0) now client p.limits.ban_table p.limits.ban_view in
      let q : LoginPortal = record p { limits = record (p.limits) { ban_view = looked.0 } } in
      let tried =
        authenticate_local_admin verify (fails 1) (fails 2) now username f.password q.accounts in
      let denied : LoginPortal = record q {
        accounts = tried.0;
        limits = record_ip_failure (after_faults 4 fails) now client cfg q.limits;
        events =
            log_admin_action (fails 3) now (local_admin_upn username) client (bytes "denied")
              (bytes "local admin login failed") q.events;
      } in
      let refused : LoginPortal × LoginPage =
        (denied, fails_with 401 (bytes "invalid_credentials")) in
      let entered : Text → LoginPortal × LoginPage = (λ name.
        let upn = local_admin_upn name in
        (
          record q {
            accounts = tried.0;
            events =
                log_admin_action (fails 3) now upn client (bytes "success")
                  (bytes "local admin login (break-glass)") q.events;
          },
          signs_in
              (write_admin_cookie c config.session_secret
                record { upn = upn; exp = now / second + admin_session_ttl }).0,
        )) in
      if looked.1 then (q, fails_with 429 (bytes "rate_limited")) else elim tried.1 [
        | Outcome.database_error ↦ refused
        | Outcome.invalid ↦ refused
        | Outcome.disabled ↦ refused
        | Outcome.locked ↦ refused
        | Outcome.accepted name ↦ entered name
      ]

  -- handleLocalAdminLogin
  unfoldable pub handle_local_admin_login :
      (Text → Option (Text × Text))
      → (List ℕ → Text → Bool)
      → Codec
      → Faults
      → ℕ
      → Thresholds
      → Config
      → Text
      → WebRequest
      → LoginForm
      → LoginPortal
      → LoginPortal × LoginPage
  handle_local_admin_login parse_url verify c fails now cfg config client r f p =
      let posted =
        if is_same_origin parse_url config r
        then log_in verify c fails now cfg config client f p
        else (p, fails_with 403 (bytes "cross_origin")) in
      if not config.local_admin_enabled
      then (p, not_found)
      else elim (local_admin_allowed_from config.local_admin_allowed_from) [
        | none ↦ (p, not_found)
        | some nets ↦
            if not (ip_allowed nets client)
            then (p, not_found)
            else if text_eq r.http_method (bytes "GET")
            then (p, shows_form)
            else if text_eq r.http_method (bytes "POST")
            then posted
            else (p, fails_with 405 (bytes "method_not_allowed"))
      ]

  -- A login that is switched off, or whose networks do not parse, or that is asked for from outside
  -- them, answers as a page that does not exist, whatever is sent, and changes nothing.
  pub hidden_login :
      (parse_url : Text → Option (Text × Text)) (verify : List ℕ → Text → Bool) (c : Codec)
      (fails : Faults) (now : ℕ) (cfg : Thresholds) (config : Config) (client : Text)
      (r : WebRequest) (f : LoginForm) (p : LoginPortal)
      → (config.local_admin_enabled ≡ false)
        ⊎ (local_admin_allowed_from config.local_admin_allowed_from ≡ none)
        ⊎ ((nets : List n.Net) × (local_admin_allowed_from config.local_admin_allowed_from
              ≡ some nets)
            × (ip_allowed nets client ≡ false))
      → handle_local_admin_login parse_url verify c fails now cfg config client r f p
        ≡ (p, not_found)
  unfolding handle_local_admin_login
  hidden_login parse_url verify c fails now cfg config client r f p (inl off) = ground (arith, off)
  hidden_login parse_url verify c fails now cfg config client r f p (inr (inl bad)) =
      ground (arith, bad)
  hidden_login parse_url verify c fails now cfg config client r f p (inr (inr (nets, e, out))) =
      ground (arith, e, out)
