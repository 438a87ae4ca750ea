-- ===== src/Config.antt =====
-- portal/config.go: the configuration. Durations are in nanoseconds; `none` is a nil list.
pub mod Registry
pub mod Runtime
pub mod Saved
pub mod Validation
use wi_fi_roaming_with_i_kua.Prelude.{
  ℕ, Bool, true, false, ◌&&◌, ◌||◌, not, List, [], ◌∷◌, ltb, length, ◌++◌,
}
use wi_fi_roaming_with_i_kua.Text.{Text, bytes, text_eq, contains, is_empty, to_lower, trim_space}
use wi_fi_roaming_with_i_kua.Numbers.{ℤ}

-- IKuaiPolicy
pub record RouterPolicy : Type 0 where
  pub upload : ℤ
  pub download : ℤ
  pub timeout : ℤ
  pub comment : Text

-- IKuaiPolicyDefaults, a policy for each profile.
pub record PolicyDefaults : Type 0 where
  pub sso : RouterPolicy
  pub duo : RouterPolicy
  pub guest : RouterPolicy

-- Config
pub record Config : Type 0 where
  pub tenant_id : Text
  pub client_id : Text
  pub client_secret : Text
  pub ikuai_app_key : Text
  pub ikuai_web_auth_url : Text
  pub ikuai_release_type : Text
  pub ikuai_policy_defaults : PolicyDefaults
  pub session_secret : Text
  pub public_url : Text
  pub listen_addr : Text
  pub trust_proxy : Bool
  pub data_dir : Text
  pub brand_name : Text
  pub brand_color : Text
  pub brand_logo_url : Text
  pub ikuai_ip_keys : List Text
  pub ikuai_mac_keys : List Text
  pub duo_ikey : Text
  pub duo_skey : Text
  pub duo_client_id : Text
  pub duo_client_secret : Text
  pub duo_api_host : Text
  pub allowed_email_domains : List Text
  pub admin_emails : List Text
  pub admin_group_ids : List Text
  pub auth_email_fails_short : ℤ
  pub auth_email_window_short : ℤ
  pub auth_email_fails_long : ℤ
  pub auth_email_window_long : ℤ
  pub guest_code_mac_fails : ℤ
  pub guest_code_mac_window : ℤ
  pub ip_fails_limit : ℤ
  pub ip_fails_window : ℤ
  pub ip_ban_duration : ℤ
  pub ip_ban_escalate_at : ℤ
  pub auth_proceed_ttl : ℤ
  pub event_log_retention : ℤ
  pub local_admin_enabled : Bool
  pub local_admin_allowed_from : Text
  pub tls_mode : Text
  pub tls_domain : Text
  pub tls_listen_addr : Text
  pub tls_redirect_http : Bool
  pub acme_enabled : Bool
  pub acme_email : Text
  pub acme_staging : Bool

-- BootstrapConfig
pub record BootstrapConfig : Type 0 where
  pub listen_addr : Text
  pub session_secret : Text
  pub encryption_key : Text
  pub data_dir : Text
  pub db_dsn : Text
  pub db_max_open_conns : ℤ
  pub trust_proxy : Bool

-- IsDuoEnabled
unfoldable pub is_duo_enabled : Config → Bool
is_duo_enabled c =
    not (is_empty c.duo_ikey)
    && not (is_empty c.duo_skey)
    && not (is_empty c.duo_client_id)
    && not (is_empty c.duo_client_secret)
    && not (is_empty c.duo_api_host)

-- IsAdminEnabled
unfoldable pub is_admin_enabled : Config → Bool
is_admin_enabled c = ltb 0 (length c.admin_emails) || ltb 0 (length c.admin_group_ids)

-- strings.ToLower(strings.TrimSpace(s))
unfoldable pub folded : Text → Text
folded s = to_lower (trim_space s)

unfoldable pub has_folded : Text → List Text → Bool
has_folded u [] = false
has_folded u (a ∷ more) = text_eq (folded a) u || has_folded u more

-- IsAdminEmail
unfoldable pub is_admin_email : Config → Text → Bool
is_admin_email c upn = has_folded (folded upn) c.admin_emails

-- RedirectURL
unfoldable pub redirect_url : Config → Text
redirect_url c = c.public_url ++ bytes "/auth/callback"

-- Issuer
unfoldable pub issuer : Config → Text
issuer c = bytes "https://login.microsoftonline.com/" ++ c.tenant_id ++ bytes "/v2.0"

-- TLSModeStandalone and TLSModeProxy
abbrev pub standalone : Text
standalone = bytes "standalone"

abbrev pub proxy : Text
proxy = bytes "proxy"
