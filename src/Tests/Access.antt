-- ===== src/Tests/Access.antt =====
-- Who is admitted to the administration, at concrete inputs.
use wi_fi_roaming_with_i_kua.Prelude.{
  ◌*◌, ◌≡◌, refl, inl, true, false, [], ◌∷◌, Option, none, some, arith,
}
use wi_fi_roaming_with_i_kua.Text.{
  Text, bytes, text_eq, trim_space, is_empty, has_substring, to_upper, to_lower,
}
use wi_fi_roaming_with_i_kua.Cookies.{
  Session, is_ascii, ascii_document, session_document, admin_document, omit_empty, new_session,
  write_session_cookie, write_admin_cookie,
}
use wi_fi_roaming_with_i_kua.Config.{
  Config, BootstrapConfig, is_admin_enabled, is_admin_email, has_folded, folded,
}
use wi_fi_roaming_with_i_kua.Config.Runtime.{runtime_config}
use wi_fi_roaming_with_i_kua.Numbers.{pos}
use wi_fi_roaming_with_i_kua.AdminGate.{
  WebRequest, UserInfo, admits, require_admin, finish_admin_login, is_guest_upn, is_admin,
  admin_grant_reason,
}
use wi_fi_roaming_with_i_kua.AdminGate.Access.{
  IsAdmitted, require_admin-IsAdmitted, require_admin-finish_admin_login,
}
use wi_fi_roaming_with_i_kua.AdminGate.SessionCookie.{require_admin-new_session}
use wi_fi_roaming_with_i_kua.FailCounter.{FailCounter}
use wi_fi_roaming_with_i_kua.IpBans.{second}
use wi_fi_roaming_with_i_kua.RateLimit.{Limits, Thresholds}
use wi_fi_roaming_with_i_kua.EventLog.{empty_table}
use wi_fi_roaming_with_i_kua.LocalAdmin.Login.{
  Networks, LoginPortal, LoginForm, local_admin_allowed_from,
}
use wi_fi_roaming_with_i_kua.Tests.Codec.{plain, plain-IsCodec}

abbrev boot : BootstrapConfig
boot = record {
  listen_addr = bytes "127.0.0.1:28080";
  session_secret = bytes "secret";
  encryption_key = [];
  data_dir = bytes "/data";
  db_dsn = [];
  db_max_open_conns = pos 0;
  trust_proxy = true;
}

abbrev config : Config
config = record (runtime_config (λ s. none) (λ u. []) boot []) {
  admin_emails = bytes "ann@x" ∷ [];
  session_secret = bytes "secret";
  local_admin_enabled = true;
  local_admin_allowed_from = [];
  public_url = bytes "https://wifi";
}

abbrev no_urls : Text → Option (Text × Text)
no_urls s = none

abbrev visitor : Session
visitor = record {
  user_ip = bytes "10.0.0.9";
  mac = bytes "aa";
  state = bytes "s";
  nonce = bytes "n";
  exp = 1900;
  lang = bytes "en";
  email = [];
  purpose = bytes "wifi";
}

abbrev request : WebRequest
request = record {
  http_method = bytes "GET";
  host = bytes "wifi";
  is_tls = true;
  forwarded_proto = [];
  origin = [];
  referer = [];
  admin_cookie = some (write_session_cookie plain (bytes "secret") visitor).0;
}

visitor-ascii : ascii_document (session_document visitor) ≡ true
unfolding session_document omit_empty ascii_document is_ascii is_empty
visitor-ascii = refl

visitor_in :
    require_admin no_urls plain 1500 config request ≡ admits record { upn = []; exp = 1900 }
unfolding is_admin_enabled new_session
visitor_in =
    require_admin-new_session no_urls plain 1000 1500 config (some (bytes "s")) (some (bytes "n"))
      (bytes "10.0.0.9") (bytes "aa") (bytes "en") visitor request plain-IsCodec refl visitor-ascii
      refl refl refl (omega arith)

require_admin-new_session_example :
    require_admin no_urls plain 1800 config request ≡ admits record { upn = []; exp = 1900 }
unfolding is_admin_enabled new_session
require_admin-new_session_example =
    require_admin-new_session no_urls plain 1000 1800 config (some (bytes "s")) (some (bytes "n"))
      (bytes "10.0.0.9") (bytes "aa") (bytes "en") visitor request plain-IsCodec refl visitor-ascii
      refl refl refl (omega arith)

require_admin-IsAdmitted_example :
    IsAdmitted plain no_urls 1500 config request record { upn = []; exp = 1900 }
require_admin-IsAdmitted_example =
    require_admin-IsAdmitted no_urls plain 1500 config request record { upn = []; exp = 1900 }
      visitor_in

abbrev ann : UserInfo
ann = record { upn = bytes "ann@x"; groups = [] }

abbrev ann_cookie : Text
ann_cookie =
    (write_admin_cookie plain (bytes "secret") record { upn = bytes "ann@x"; exp = 4600 }).0

require_admin-finish_admin_login_example :
    require_admin no_urls plain 4000 config (record request { admin_cookie = some ann_cookie })
    ≡ admits record { upn = bytes "ann@x"; exp = 4600 }
unfolding finish_admin_login admin_document ascii_document is_ascii is_guest_upn has_substring
    to_upper is_admin is_admin_email has_folded text_eq folded to_lower trim_space
    admin_grant_reason
require_admin-finish_admin_login_example =
    require_admin-finish_admin_login no_urls plain 1000 4000 config ann
      (record request { admin_cookie = some ann_cookie }) ann_cookie
      (bytes "admin login via=email_list") plain-IsCodec refl refl refl (inl refl) (omega arith)

abbrev networks : Networks
networks = record {
  Ip = Text;
  Net = Text;
  parse_ip = λ s. some s;
  is_ipv4 = λ ip. true;
  parse_cidr = λ s. some s;
  holds = λ net ip. true;
}

abbrev counter : FailCounter
counter = record { entries = []; max_window = 100 }

abbrev limits : Limits
limits = record {
  auth_email_fails = counter;
  guest_code_fails = counter;
  ip_fails = counter;
  ban_table = [];
  ban_view = record { cache = []; refreshed = 1000 * second; truncated = false };
  ban_history = [];
}

abbrev thresholds : Thresholds
thresholds = record {
  auth_email_fails_short = 5;
  auth_email_window_short = 600 * second;
  auth_email_fails_long = 20;
  auth_email_window_long = 86400 * second;
  guest_code_mac_fails = 5;
  guest_code_mac_window = 600 * second;
  ip_fails_limit = 2;
  ip_fails_window = 600 * second;
  ip_ban_duration = 60 * second;
  ip_ban_escalate_at = 2;
}

abbrev login_portal : LoginPortal
login_portal = record {
  accounts =
      (
        bytes "root",
        record {
          password_hash = bytes "pw";
          enabled = true;
          created_at = 0;
          last_login_at = none;
          failed_attempts = 3;
          locked_until = none;
        },
      )
      ∷ [];
  limits = limits;
  events = empty_table;
}

abbrev post : WebRequest
post = record request {
  http_method = bytes "POST";
  origin = bytes "https://wifi";
  admin_cookie = none;
}

abbrev login_form : LoginForm
login_form = record { username = bytes "Root"; password = bytes "pw" }

abbrev root_cookie : Text
root_cookie =
    (write_admin_cookie plain (bytes "secret") record { upn = bytes "root@local"; exp = 4601 }).0
