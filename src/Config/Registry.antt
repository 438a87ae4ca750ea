-- ===== src/Config/Registry.antt =====
-- portal/config_settings.go: the registry of the settings, and what portal/admin_settings.go reads of it.
use wi_fi_roaming_with_i_kua.Prelude.{
  Bool, true, false, List, [], ◌∷◌, Option, none, some, if◌then◌else◌, select,
}
use wi_fi_roaming_with_i_kua.Text.{Text, bytes, text_eq, is_empty, contains}
use wi_fi_roaming_with_i_kua.Maps.{Map, lookup, put}
use wi_fi_roaming_with_i_kua.Settings.{sort_texts, SecretKeys}
use wi_fi_roaming_with_i_kua.Settings.Store.{key_name}
use wi_fi_roaming_with_i_kua.Config.{proxy}

abbrev pub sec_oidc : Text
sec_oidc = bytes "oidc"

abbrev pub sec_ikuai : Text
sec_ikuai = bytes "ikuai"

abbrev pub sec_ikuai_policy : Text
sec_ikuai_policy = bytes "ikuai_policy"

abbrev pub sec_portal : Text
sec_portal = bytes "portal"

abbrev pub sec_brand : Text
sec_brand = bytes "brand"

abbrev pub sec_duo : Text
sec_duo = bytes "duo"

abbrev pub sec_auth : Text
sec_auth = bytes "auth"

abbrev pub sec_admin : Text
sec_admin = bytes "admin"

abbrev pub sec_rate_limit : Text
sec_rate_limit = bytes "ratelimit"

abbrev pub sec_event_log : Text
sec_event_log = bytes "eventlog"

abbrev pub sec_local_admin : Text
sec_local_admin = bytes "local_admin"

abbrev pub sec_tls : Text
sec_tls = bytes "tls"

-- settingDef
pub record SettingDef : Type 0 where
  pub section : Text
  pub key : Text
  pub env : Text
  pub fallback : Text
  pub is_credential : Bool

setting : Text → Text → Text → Text → SettingDef
setting section key env fallback = record {
  section = section;
  key = key;
  env = env;
  fallback = fallback;
  is_credential = false;
}

credential : Text → Text → Text → SettingDef
credential section key env = record {
  section = section;
  key = key;
  env = env;
  fallback = [];
  is_credential = true;
}

-- settingRegistry
unfoldable pub setting_registry : List SettingDef
unfolding setting credential
setting_registry =
    setting sec_oidc (bytes "tenant_id") (bytes "TENANT_ID") []
    ∷ setting sec_oidc (bytes "client_id") (bytes "CLIENT_ID") []
    ∷ credential sec_oidc (bytes "client_secret") (bytes "CLIENT_SECRET")
    ∷ credential sec_ikuai (bytes "app_key") (bytes "IKUAI_APPKEY")
    ∷ setting sec_ikuai (bytes "webauth_url") (bytes "IKUAI_WEBAUTH_URL")
        (bytes "https://portal.ikuai8-wifi.com/Action/webauth-up")
    ∷ setting sec_ikuai (bytes "release_type") (bytes "IKUAI_RELEASE_TYPE") (bytes "1")
    ∷ setting sec_ikuai (bytes "ip_keys") (bytes "IKUAI_IP_KEYS") (bytes "user_ip,ip,ipaddr")
    ∷ setting sec_ikuai (bytes "mac_keys") (bytes "IKUAI_MAC_KEYS")
        (bytes "user_mac,mac,usrmac,devmac")
    ∷ setting sec_ikuai_policy (bytes "sso_upload") (bytes "IKUAI_SSO_UPLOAD") (bytes "0")
    ∷ setting sec_ikuai_policy (bytes "sso_download") (bytes "IKUAI_SSO_DOWNLOAD") (bytes "0")
    ∷ setting sec_ikuai_policy (bytes "sso_timeout") (bytes "IKUAI_SSO_TIMEOUT") (bytes "0")
    ∷ setting sec_ikuai_policy (bytes "sso_comment") (bytes "IKUAI_SSO_COMMENT") []
    ∷ setting sec_ikuai_policy (bytes "duo_upload") (bytes "IKUAI_DUO_UPLOAD") (bytes "0")
    ∷ setting sec_ikuai_policy (bytes "duo_download") (bytes "IKUAI_DUO_DOWNLOAD") (bytes "0")
    ∷ setting sec_ikuai_policy (bytes "duo_timeout") (bytes "IKUAI_DUO_TIMEOUT") (bytes "0")
    ∷ setting sec_ikuai_policy (bytes "duo_comment") (bytes "IKUAI_DUO_COMMENT") []
    ∷ setting sec_ikuai_policy (bytes "guest_upload") (bytes "IKUAI_GUEST_UPLOAD") (bytes "0")
    ∷ setting sec_ikuai_policy (bytes "guest_download") (bytes "IKUAI_GUEST_DOWNLOAD") (bytes "0")
    ∷ setting sec_ikuai_policy (bytes "guest_comment") (bytes "IKUAI_GUEST_COMMENT") []
    ∷ setting sec_portal (bytes "public_url") (bytes "PUBLIC_URL") []
    ∷ setting sec_brand (bytes "name") (bytes "BRAND_NAME") (bytes "Kazuha Hub")
    ∷ setting sec_brand (bytes "color") (bytes "BRAND_COLOR") (bytes "#2563eb")
    ∷ setting sec_brand (bytes "logo_url") (bytes "BRAND_LOGO_URL") []
    ∷ setting sec_duo (bytes "ikey") (bytes "DUO_IKEY") []
    ∷ credential sec_duo (bytes "skey") (bytes "DUO_SKEY")
    ∷ setting sec_duo (bytes "client_id") (bytes "DUO_CLIENT_ID") []
    ∷ credential sec_duo (bytes "client_secret") (bytes "DUO_CLIENT_SECRET")
    ∷ setting sec_duo (bytes "api_host") (bytes "DUO_API_HOST") []
    ∷ setting sec_auth (bytes "allowed_email_domains") (bytes "ALLOWED_EMAIL_DOMAINS") []
    ∷ setting sec_admin (bytes "emails") (bytes "ADMIN_EMAILS") []
    ∷ setting sec_admin (bytes "group_ids") (bytes "ADMIN_GROUP_IDS") []
    ∷ setting sec_rate_limit (bytes "auth_email_fails_short") (bytes "AUTH_EMAIL_FAILS_SHORT")
        (bytes "5")
    ∷ setting sec_rate_limit (bytes "auth_email_window_short") (bytes "AUTH_EMAIL_WINDOW_SHORT")
        (bytes "3m")
    ∷ setting sec_rate_limit (bytes "auth_email_fails_long") (bytes "AUTH_EMAIL_FAILS_LONG")
        (bytes "20")
    ∷ setting sec_rate_limit (bytes "auth_email_window_long") (bytes "AUTH_EMAIL_WINDOW_LONG")
        (bytes "1h")
    ∷ setting sec_rate_limit (bytes "guest_code_mac_fails") (bytes "GUEST_CODE_MAC_FAILS")
        (bytes "6")
    ∷ setting sec_rate_limit (bytes "guest_code_mac_window") (bytes "GUEST_CODE_MAC_WINDOW")
        (bytes "30m")
    ∷ setting sec_rate_limit (bytes "ip_fails_limit") (bytes "IP_FAILS_LIMIT") (bytes "20")
    ∷ setting sec_rate_limit (bytes "ip_fails_window") (bytes "IP_FAILS_WINDOW") (bytes "5m")
    ∷ setting sec_rate_limit (bytes "ip_ban_duration") (bytes "IP_BAN_DURATION") (bytes "2m")
    ∷ setting sec_rate_limit (bytes "ip_ban_escalate_at") (bytes "IP_BAN_ESCALATE_AT")
        (bytes "999999")
    ∷ setting sec_rate_limit (bytes "auth_proceed_ttl") (bytes "AUTH_PROCEED_TTL") (bytes "5m")
    ∷ setting sec_event_log (bytes "retention_days") (bytes "EVENT_LOG_RETENTION_DAYS") (bytes "7")
    ∷ setting sec_local_admin (bytes "enabled") [] (bytes "false")
    ∷ setting sec_local_admin (bytes "allowed_from") [] []
    ∷ setting sec_tls (bytes "mode") [] proxy
    ∷ setting sec_tls (bytes "domain") [] []
    ∷ setting sec_tls (bytes "listen_addr") [] (bytes "0.0.0.0:443")
    ∷ setting sec_tls (bytes "redirect_http") [] (bytes "false")
    ∷ setting sec_tls (bytes "acme_enabled") [] (bytes "false")
    ∷ setting sec_tls (bytes "acme_email") [] []
    ∷ setting sec_tls (bytes "acme_staging") [] (bytes "false")
    ∷ []

-- The loop that builds settingIndex; a second definition of a key is a panic.
unfoldable pub index_of_defs : List SettingDef → Option (Map SettingDef)
index_of_defs [] = some []
index_of_defs (d ∷ defs) =
    let rest = index_of_defs defs in
    let k = key_name d.section d.key in
    elim rest [
      | none ↦ none
      | some m ↦ elim (lookup k m) [ none ↦ some (put k d m) | some e ↦ none ]
    ]

-- settingIndex[Key(section, key)]
unfoldable pub find_def : Text → Text → List SettingDef → Option SettingDef
find_def section key [] = none
find_def section key (d ∷ defs) =
    if text_eq (key_name d.section d.key) (key_name section key)
    then some d
    else find_def section key defs

-- isSecretSetting
unfoldable pub is_secret_setting : SecretKeys
is_secret_setting section key = elim (find_def section key setting_registry) [
  | none ↦ false
  | some d ↦ d.is_credential
]

-- The default of a setting.
unfoldable pub default_of : Text → Text → Text
default_of section key = elim (find_def section key setting_registry) [
  | none ↦ []
  | some d ↦ d.fallback
]

-- sectionKeys
unfoldable pub section_keys : Text → List SettingDef
section_keys section = select (λ d. text_eq d.section section) setting_registry

unfoldable pub distinct_from : List Text → List SettingDef → List Text
distinct_from seen [] = []
distinct_from seen (d ∷ defs) =
    let rest = distinct_from (d.section ∷ seen) defs in
    if contains d.section seen then rest else d.section ∷ rest

-- knownSections
unfoldable pub known_sections : List Text
known_sections = sort_texts (distinct_from [] setting_registry)

-- One step of the loop of defaultSettingValues.
unfoldable pub with_default : SettingDef → Map (Map Text) → Map (Map Text)
with_default d out =
    let section : Map Text = elim (lookup d.section out) [ none ↦ [] | some m ↦ m ] in
    if is_empty d.fallback then out else put d.section (put d.key d.fallback section) out

unfoldable pub defaults_from : List SettingDef → Map (Map Text) → Map (Map Text)
defaults_from [] out = out
defaults_from (d ∷ defs) out = defaults_from defs (with_default d out)

-- defaultSettingValues
unfoldable pub default_setting_values : Map (Map Text)
default_setting_values = defaults_from setting_registry []

-- warnIgnoredRuntimeEnv: the variables that are set and have no effect.
unfoldable pub ignored_env : (Text → Text) → List SettingDef
ignored_env getenv =
    select (λ d. if is_empty d.env then false else if is_empty (getenv d.env) then false else true)
      setting_registry
