-- ===== src/Config/Runtime.antt =====
-- portal/config_settings.go: `applyRuntimeSettings`, with the typed readers of
-- portal/internal/settings/settings.go. time.ParseDuration and the host of a URL are parameters.
use wi_fi_roaming_with_i_kua.Prelude.{
  ℕ, ◌*◌, Bool, true, false, ◌&&◌, ◌||◌, List, [], ◌∷◌, Option, none, some, if◌then◌else◌, length,
  leb, ltb, ◌==◌,
}
use wi_fi_roaming_with_i_kua.Text.{Text, bytes, is_empty, trim_space}
use wi_fi_roaming_with_i_kua.Maps.{Map, lookup}
use wi_fi_roaming_with_i_kua.ClientIp.{split}
use wi_fi_roaming_with_i_kua.Numbers.{ℤ, pos, times64, atoi, parse_bool}
use wi_fi_roaming_with_i_kua.Settings.Store.{key_name}
use wi_fi_roaming_with_i_kua.Config.{RouterPolicy, PolicyDefaults, Config, BootstrapConfig}
use wi_fi_roaming_with_i_kua.Config.Registry.{
  default_of, sec_oidc, sec_ikuai, sec_ikuai_policy, sec_portal, sec_brand, sec_duo, sec_auth,
  sec_admin, sec_rate_limit, sec_event_log, sec_local_admin, sec_tls,
}

-- Values
abbrev pub Values : Type 0
Values = Map Text

-- A stored value that is not empty.
unfoldable pub set_value : Values → Text → Text → Option Text
set_value v section key = elim (lookup (key_name section key) v) [
  | none ↦ none
  | some s ↦ if is_empty s then none else some s
]

-- The value that parses, or the default.
unfoldable pub parsed {ℓ} : {A : Type ℓ} → (Text → Option A) → Option Text → A → A
parsed parse none fallback = fallback
parsed parse (some s) fallback = elim (parse (trim_space s)) [ none ↦ fallback | some a ↦ a ]

-- Values.String
unfoldable pub string_value : Values → Text → Text → Text → Text
string_value v section key fallback = elim (set_value v section key) [
  | none ↦ fallback
  | some s ↦ s
]

-- Values.Int
unfoldable pub int_value : Values → Text → Text → ℤ → ℤ
int_value v section key fallback = parsed atoi (set_value v section key) fallback

-- Values.Bool
unfoldable pub bool_value : Values → Text → Text → Bool → Bool
bool_value v section key fallback = parsed parse_bool (set_value v section key) fallback

-- Values.Duration
unfoldable pub duration_value : (Text → Option ℤ) → Values → Text → Text → ℤ → ℤ
duration_value parse_duration v section key fallback =
    parsed parse_duration (set_value v section key) fallback

unfoldable pub trimmed_parts : List Text → List Text
trimmed_parts [] = []
trimmed_parts (p ∷ parts) =
    let rest = trimmed_parts parts in if is_empty (trim_space p) then rest else trim_space p ∷ rest

-- Values.List
unfoldable pub list_value : Values → Text → Text → List Text → List Text
list_value v section key fallback = elim (lookup (key_name section key) v) [
  | none ↦ fallback
  | some s ↦
      let out = trimmed_parts (split b',' s) in
      if is_empty (trim_space s) then fallback else if ltb 0 (length out) then out else fallback
]

-- splitCSV
unfoldable pub split_csv : Text → List Text
split_csv s = if is_empty s then [] else trimmed_parts (split b',' s)

unfoldable pub is_hex_digit : ℕ → Bool
is_hex_digit c = leb 48 c && leb c 57 || leb 97 c && leb c 102 || leb 65 c && leb c 70

unfoldable pub all_hex : Text → Bool
all_hex [] = true
all_hex (c ∷ s) = is_hex_digit c && all_hex s

-- isHexColor
unfoldable pub is_hex_color : Text → Bool
is_hex_color [] = false
is_hex_color (c ∷ s) = c == 35 && (length s == 3 || length s == 6 || length s == 8) && all_hex s

-- sanitizeBrandColor
unfoldable pub sanitize_brand_color : Text → Text → Text
sanitize_brand_color raw fallback =
    let s = trim_space raw in
    if is_empty s then fallback else if is_hex_color s then s else fallback

unfoldable pub trim_right_slashes : Text → Text
trim_right_slashes [] = []
trim_right_slashes (c ∷ s) =
    let rest = trim_right_slashes s in if c == 47 && is_empty rest then [] else c ∷ rest

-- The integer and the duration of a default, 0 where it does not parse.
unfoldable pub int_default : Text → Text → ℤ
int_default section key = elim (atoi (default_of section key)) [ none ↦ pos 0 | some n ↦ n ]

unfoldable pub duration_default : (Text → Option ℤ) → Text → Text → ℤ
duration_default parse_duration section key = elim (parse_duration (default_of section key)) [
  | none ↦ pos 0
  | some d ↦ d
]

-- The policy that the settings with a prefix seed.
unfoldable pub seeded_policy : Values → Text → Text → Text → ℤ → RouterPolicy
seeded_policy v upload download comment timeout = record {
  upload = int_value v sec_ikuai_policy upload (pos 0);
  download = int_value v sec_ikuai_policy download (pos 0);
  timeout = timeout;
  comment = trim_space (string_value v sec_ikuai_policy comment []);
}

unfoldable pub seeded_policies : Values → PolicyDefaults
seeded_policies v = record {
  sso =
      seeded_policy v (bytes "sso_upload") (bytes "sso_download") (bytes "sso_comment")
        (int_value v sec_ikuai_policy (bytes "sso_timeout") (pos 0));
  duo =
      seeded_policy v (bytes "duo_upload") (bytes "duo_download") (bytes "duo_comment")
        (int_value v sec_ikuai_policy (bytes "duo_timeout") (pos 0));
  guest =
      seeded_policy v (bytes "guest_upload") (bytes "guest_download") (bytes "guest_comment")
        (pos 0);
}

-- One day, in nanoseconds.
abbrev pub day : ℕ
day = 24 * 3_600_000_000_000

module _ (parse_duration : Text → Option ℤ) (host_of : Text → Text) where
  limit_value : Values → Text → ℤ
  limit_value v key = int_value v sec_rate_limit key (int_default sec_rate_limit key)

  window_value : Values → Text → ℤ
  window_value v key =
      duration_value parse_duration v sec_rate_limit key
        (duration_default parse_duration sec_rate_limit key)

  -- applyBootstrap and then applyRuntimeSettings, on a new Config.
  unfoldable pub runtime_config : BootstrapConfig → Values → Config
  unfolding limit_value window_value
  runtime_config b v =
      let str : Text → Text → Text = (λ section key. string_value v section key []) in
      let strd : Text → Text → Text =
        (λ section key. string_value v section key (default_of section key)) in
      let public_url = trim_right_slashes (str sec_portal (bytes "public_url")) in
      let domain = str sec_tls (bytes "domain") in
      record {
        tenant_id = str sec_oidc (bytes "tenant_id");
        client_id = str sec_oidc (bytes "client_id");
        client_secret = str sec_oidc (bytes "client_secret");
        ikuai_app_key = str sec_ikuai (bytes "app_key");
        ikuai_web_auth_url = strd sec_ikuai (bytes "webauth_url");
        ikuai_release_type = strd sec_ikuai (bytes "release_type");
        ikuai_policy_defaults = seeded_policies v;
        session_secret = b.session_secret;
        public_url = public_url;
        listen_addr = b.listen_addr;
        trust_proxy = b.trust_proxy;
        data_dir = b.data_dir;
        brand_name = strd sec_brand (bytes "name");
        brand_color =
            sanitize_brand_color (str sec_brand (bytes "color"))
              (default_of sec_brand (bytes "color"));
        brand_logo_url = str sec_brand (bytes "logo_url");
        ikuai_ip_keys =
            list_value v sec_ikuai (bytes "ip_keys")
              (split_csv (default_of sec_ikuai (bytes "ip_keys")));
        ikuai_mac_keys =
            list_value v sec_ikuai (bytes "mac_keys")
              (split_csv (default_of sec_ikuai (bytes "mac_keys")));
        duo_ikey = str sec_duo (bytes "ikey");
        duo_skey = str sec_duo (bytes "skey");
        duo_client_id = str sec_duo (bytes "client_id");
        duo_client_secret = str sec_duo (bytes "client_secret");
        duo_api_host = str sec_duo (bytes "api_host");
        allowed_email_domains = list_value v sec_auth (bytes "allowed_email_domains") [];
        admin_emails = list_value v sec_admin (bytes "emails") [];
        admin_group_ids = list_value v sec_admin (bytes "group_ids") [];
        auth_email_fails_short = limit_value v (bytes "auth_email_fails_short");
        auth_email_window_short = window_value v (bytes "auth_email_window_short");
        auth_email_fails_long = limit_value v (bytes "auth_email_fails_long");
        auth_email_window_long = window_value v (bytes "auth_email_window_long");
        guest_code_mac_fails = limit_value v (bytes "guest_code_mac_fails");
        guest_code_mac_window = window_value v (bytes "guest_code_mac_window");
        ip_fails_limit = limit_value v (bytes "ip_fails_limit");
        ip_fails_window = window_value v (bytes "ip_fails_window");
        ip_ban_duration = window_value v (bytes "ip_ban_duration");
        ip_ban_escalate_at = limit_value v (bytes "ip_ban_escalate_at");
        auth_proceed_ttl = window_value v (bytes "auth_proceed_ttl");
        event_log_retention =
            times64
              (int_value v sec_event_log (bytes "retention_days")
                (int_default sec_event_log (bytes "retention_days")))
              day;
        local_admin_enabled = bool_value v sec_local_admin (bytes "enabled") false;
        local_admin_allowed_from = str sec_local_admin (bytes "allowed_from");
        tls_mode = strd sec_tls (bytes "mode");
        tls_domain = if is_empty domain then host_of public_url else domain;
        tls_listen_addr = strd sec_tls (bytes "listen_addr");
        tls_redirect_http = bool_value v sec_tls (bytes "redirect_http") false;
        acme_enabled = bool_value v sec_tls (bytes "acme_enabled") false;
        acme_email = str sec_tls (bytes "acme_email");
        acme_staging = bool_value v sec_tls (bytes "acme_staging") false;
      }
