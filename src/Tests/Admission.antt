-- ===== src/Tests/Admission.antt =====
-- The sign-in handlers at concrete inputs.
use wi_fi_roaming_with_i_kua.Prelude.{
  ◌*◌, ◌≡◌, ◌≢◌, refl, true, false, ℕ, List, [], ◌∷◌, Option, none, some, arith,
}
use wi_fi_roaming_with_i_kua.Text.{Text, bytes, is_empty, text_eq}
use wi_fi_roaming_with_i_kua.Text.Laws.{text_eq_iff}
use wi_fi_roaming_with_i_kua.Maps.{lookup}
use wi_fi_roaming_with_i_kua.Database.{no_faults}
use wi_fi_roaming_with_i_kua.FailCounter.{FailCounter}
use wi_fi_roaming_with_i_kua.UsedStates.Replay
use wi_fi_roaming_with_i_kua.ProceedTokens.SingleUse
use wi_fi_roaming_with_i_kua.IpBans.{second}
use wi_fi_roaming_with_i_kua.RateLimit.{Thresholds, banned_ip_for_request}
use wi_fi_roaming_with_i_kua.GuestCodes.Rows.{CodeRow, normalize_code, find_row}
use wi_fi_roaming_with_i_kua.GuestCodes.Store.{redeem}
use wi_fi_roaming_with_i_kua.Denylist.{is_mac_denied}
use wi_fi_roaming_with_i_kua.SignIn.{Session, Portal, Profile, Grant, Response}
use wi_fi_roaming_with_i_kua.SignIn.Callback.{CallbackQuery, admit, callback_user, handle_callback}
use wi_fi_roaming_with_i_kua.SignIn.Callback.Admission.{
  AdmitsMember, callback_admits, callback_admits_once,
}
use wi_fi_roaming_with_i_kua.SignIn.Redeem.{
  GuestRequest, redeem_form, check_device, redeem_code, grant_guest, handle_guest_code,
}
use wi_fi_roaming_with_i_kua.SignIn.Redeem.Guests.{AdmitsGuest, guest_admits}
use wi_fi_roaming_with_i_kua.SignIn.Start.{
  DuoClients, StartConfig, StartRequest, route, hand_out, handle_auth_start, handle_auth_proceed,
}
use wi_fi_roaming_with_i_kua.SignIn.Start.Proceed.{
  start_hides_route, proceed_once, hand_out-proceed,
}

abbrev no_failures : FailCounter
no_failures = record { entries = []; max_window = 86400 * second }

abbrev code_row : CodeRow
code_row = record {
  code = bytes "ab12";
  code_lower = bytes "ab12";
  created_at = 5;
  expires_at = none;
  duration_min = 60;
  max_uses = 1;
  note = [];
}

abbrev the_url : Text
the_url = bytes "/login"

abbrev the_token : Text
the_token = bytes "f00d"

abbrev the_state : Text
the_state = bytes "5ta7e"

-- A portal with one guest code and one token.
abbrev portal : Portal
portal = record {
  limits = record {
    auth_email_fails = no_failures;
    guest_code_fails = no_failures;
    ip_fails = no_failures;
    ban_table = [];
    ban_view = record { cache = []; refreshed = 0; truncated = false };
    ban_history = [];
  };
  used_states = record { states = []; ttl = 600 * second };
  proceed_store = record {
    entries =
        (
          the_token,
          record { url = the_url; session_state = the_state; email = []; expires = 60 * second },
        )
        ∷ [];
    ttl = 60 * second;
  };
  denylist = [];
  guest_codes = record { codes = code_row ∷ []; uses = [] };
  events = [];
}

abbrev session : Session
session = record {
  user_ip = bytes "10.0.0.9";
  mac = bytes "aa:bb:cc:dd:ee:01";
  state = the_state;
  nonce = bytes "n";
  email = [];
  purpose = bytes "wifi";
}

abbrev settings : Thresholds
settings = record {
  auth_email_fails_short = 5;
  auth_email_window_short = 600 * second;
  auth_email_fails_long = 20;
  auth_email_window_long = 86400 * second;
  guest_code_mac_fails = 5;
  guest_code_mac_window = 600 * second;
  ip_fails_limit = 20;
  ip_fails_window = 600 * second;
  ip_ban_duration = 60 * second;
  ip_ban_escalate_at = 2;
}

-- A provider that knows one account.
abbrev provider : Text → Text → Option Text
provider code nonce = some (bytes "a@b.c")

abbrev query : CallbackQuery
query = record { error = []; state = the_state; code = bytes "c"; duo_code = [] }

abbrev member : Grant
member = record {
  ip = session.user_ip;
  mac = session.mac;
  upn = bytes "a@b.c";
  profile = Profile.sso_profile;
  timeout = none;
}

callback_granted :
    (handle_callback provider no_faults second [] (some session) query portal).1
    ≡ Response.grants member
unfolding handle_callback callback_user admit
callback_granted = refl

callback_admits_example : AdmitsMember provider no_faults second session query portal member
callback_admits_example =
    callback_admits provider no_faults second [] session query portal member callback_granted

abbrev after_callback : Portal
after_callback = (handle_callback provider no_faults second [] (some session) query portal).0

callback_admits_once_example :
    (handle_callback provider no_faults (2 * second) [] (some session) query after_callback).1
    ≢ Response.grants member
unfolding Replay.run
callback_admits_once_example =
    callback_admits_once provider no_faults no_faults second (2 * second) [] [] session session
      query query portal after_callback member member [] callback_granted refl refl (omega arith) tt
      (omega arith)

abbrev request : GuestRequest
request = record {
  is_post = true;
  client = bytes "10.0.0.9";
  code = bytes " AB12";
  guest_id = some (bytes "00c0ffee");
}

abbrev visitor : Grant
visitor = record {
  ip = session.user_ip;
  mac = session.mac;
  upn = bytes "Guest-00c0ffee";
  profile = Profile.guest_profile;
  timeout = some 60;
}

guest_granted :
    (handle_guest_code true no_faults second request (some session) settings portal).1
    ≡ Response.grants visitor
unfolding handle_guest_code redeem_form check_device redeem_code grant_guest banned_ip_for_request
    normalize_code find_row redeem
guest_granted = refl

guest_admits_example : AdmitsGuest no_faults second request session settings portal visitor
guest_admits_example =
    guest_admits no_faults second request session settings portal visitor guest_granted

abbrev same_text : Text → Text
same_text s = s

abbrev duo : DuoClients
duo = record {
  preauth = λ _. some (record { result = bytes "auth"; devices = 1 });
  auth_url = λ _ _. some (bytes "https://duo");
}

abbrev start_config : StartConfig
start_config = record { thresholds = settings; duo_enabled = false; allowed_email_domains = [] }

abbrev start_request : StartRequest
start_request = record {
  is_post = true;
  client = bytes "10.0.0.9";
  email = bytes "a@b.c";
  cookie_written = true;
  token = some (bytes "beef");
}

start_hides_route_example :
    (handle_auth_start same_text
      (some duo)
      no_faults
      second
      start_request
      (some session)
      start_config
      portal).1
    ≡ (handle_auth_start same_text none no_faults second start_request
        (some session)
        start_config
        portal).1
start_hides_route_example =
    start_hides_route same_text (some duo) none no_faults second start_request (some session)
      start_config portal

proceeded :
    (handle_auth_proceed false second (some session) the_token portal).1
    ≡ Response.redirects the_url
unfolding handle_auth_proceed lookup
proceeded = refl

abbrev after_proceed : Portal
after_proceed = (handle_auth_proceed false second (some session) the_token portal).0

proceed_once_example :
    (handle_auth_proceed false (2 * second) (some session) the_token after_proceed).1
    ≢ Response.redirects the_url
unfolding SingleUse.run
proceed_once_example =
    proceed_once false false second (2 * second) session session the_token the_url the_url portal
      after_proceed [] proceeded refl tt

abbrev handed_out : Portal
handed_out =
    (hand_out same_text (some duo) second (some (bytes "beef")) (bytes "a@b.c") session portal).0

-- Another token is put and taken, and the sweep runs.
abbrev others : List (ℕ × SingleUse.Call)
others =
    (second, SingleUse.puts (bytes "cafe") [] [] [])
    ∷ (2 * second, SingleUse.sweeps)
    ∷ (2 * second, SingleUse.takes (bytes "cafe"))
    ∷ []

cafe≢beef : bytes "cafe" ≢ bytes "beef"
unfolding text_eq
cafe≢beef e = ground (arith, (text_eq_iff (bytes "cafe") (bytes "beef")).1 e)

hand_out-proceed_example :
    (handle_auth_proceed false
      (3 * second)
      (some session)
      (bytes "beef")
      (record handed_out { proceed_store = SingleUse.run others handed_out.proceed_store })).1
    ≡ Response.redirects (bytes "https://duo")
unfolding route hand_out is_empty is_mac_denied
hand_out-proceed_example =
    hand_out-proceed same_text (some duo) second (3 * second) (bytes "beef") (bytes "a@b.c") session
      session portal
      (record handed_out { proceed_store = SingleUse.run others handed_out.proceed_store }) others
      refl refl refl (omega arith, cafe≢beef, (omega arith, (omega arith, cafe≢beef, tt)))
      (omega arith) refl (omega arith)
