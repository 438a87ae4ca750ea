-- ===== src/RateLimit.antt =====
-- portal/main.go: the failure accounting that the sign-in handlers share. Each call takes the time
-- and, for each database statement in order, whether it fails.
pub mod Escalation
use wi_fi_roaming_with_i_kua.Prelude.{
  ℕ, ◌+◌, ◌-◌, ◌*◌, Bool, true, false, ◌||◌, List, [], ◌∷◌, ◌++◌, Option, none, some, if◌then◌else◌,
  ltb, leb, ◌==◌,
}
use wi_fi_roaming_with_i_kua.Text.{Text, contains, is_empty, text_eq, trim_space, to_lower}
use wi_fi_roaming_with_i_kua.Database.{Faults, after_faults}
use wi_fi_roaming_with_i_kua.FailCounter.{FailCounter, record_fail, count_in}
use wi_fi_roaming_with_i_kua.FailCounter
use wi_fi_roaming_with_i_kua.IpBans.{Table, View, second, ban, is_banned, unban}
use wi_fi_roaming_with_i_kua.BanHistory.{History, increment}

-- The fields of `Config` that the rules read. A negative number acts as 0 in the code.
pub record Thresholds : Type 0 where
  pub auth_email_fails_short : ℕ
  pub auth_email_window_short : ℕ
  pub auth_email_fails_long : ℕ
  pub auth_email_window_long : ℕ
  pub guest_code_mac_fails : ℕ
  pub guest_code_mac_window : ℕ
  pub ip_fails_limit : ℕ
  pub ip_fails_window : ℕ
  pub ip_ban_duration : ℕ
  pub ip_ban_escalate_at : ℕ

-- The fields of `App` that count failures, with the tables behind them.
pub record Limits : Type 0 where
  pub auth_email_fails : FailCounter
  pub guest_code_fails : FailCounter
  pub ip_fails : FailCounter
  pub ban_table : Table
  pub ban_view : View
  pub ban_history : History

-- PermanentBanUntil: the first of January 2125.
abbrev pub permanent_ban_until : ℕ
permanent_ban_until = 4_891_363_200 * second

-- IsPermanent: after the first of January 2100.
unfoldable pub is_permanent : ℕ → Bool
is_permanent t = ltb (4_102_444_800 * second) t

unique_from : List Text → List Text → List Text
unfolding contains trim_space is_empty
unique_from seen [] = []
unique_from seen (v ∷ vs) =
    let t = trim_space v in
    let skipped = unique_from seen vs in
    let taken = t ∷ unique_from (t ∷ seen) vs in
    if is_empty t || contains t seen then skipped else taken

-- uniqueNonEmpty
unfoldable pub unique_non_empty : List Text → List Text
unfolding unique_from
unique_non_empty values = unique_from [] values

-- requestIPKeys: the client's address, and the session's if there is a session.
unfoldable pub request_ip_keys : Text → Option Text → List Text
unfolding unique_non_empty
request_ip_keys client none = unique_non_empty (client ∷ [])
request_ip_keys client (some user_ip) = unique_non_empty (client ∷ user_ip ∷ [])

-- The loop of bannedIPForRequest: the first banned address, and the view after the lookups.
unfoldable pub first_banned : Faults → ℕ → Table → List Text → View → View × Option Text
unfolding is_banned
first_banned fails now table [] v = (v, none)
first_banned fails now table (ip ∷ ips) v =
    let (v', banned) = is_banned (fails 0) now ip table v in
    let rest = first_banned (after_faults 1 fails) now table ips v' in
    if banned then (v', some ip) else rest

unfoldable pub banned_ip_for_request :
    Faults → ℕ → Text → Option Text → Limits → Limits × Option Text
unfolding first_banned request_ip_keys
banned_ip_for_request fails now client user_ip l =
    let (v, banned) =
      first_banned fails now l.ban_table (request_ip_keys client user_ip) l.ban_view in
    (record l { ban_view = v }, banned)

-- The cooldown of an address: `a.ipBans.ban(ip, d)`.
unfoldable pub cool_down : Bool → ℕ → Text → ℕ → Limits → Limits
unfolding ban
cool_down fails now ip d l =
    let (table, v) = ban fails now ip d (l.ban_table, l.ban_view) in
    record l { ban_table = table; ban_view = v }

-- The end of recordIPFailure, for an address over its limit that is not banned. Statement 1 is the
-- upsert of the history, 2 its read, 3 the ban.
unfoldable pub escalate : Faults → ℕ → Text → Thresholds → Limits → Limits
escalate fails now ip cfg l =
    let (history, ban_count) = increment (fails 1) (fails 2) ip l.ban_history in
    let l' = record l { ban_history = history } in
    if cfg.ip_ban_escalate_at == 0
    then cool_down (fails 3) now ip cfg.ip_ban_duration l
    else if leb cfg.ip_ban_escalate_at ban_count
    then cool_down (fails 3) now ip (permanent_ban_until - now) l'
    else cool_down (fails 3) now ip cfg.ip_ban_duration l'

-- recordIPFailure. Statement 0 is the reload of a stale view.
unfoldable pub record_ip_failure : Faults → ℕ → Text → Thresholds → Limits → Limits
record_ip_failure fails now ip cfg l =
    let counted = record l { ip_fails = record_fail now ip l.ip_fails } in
    let (v, banned) = is_banned (fails 0) now ip l.ban_table l.ban_view in
    let looked = record counted { ban_view = v } in
    if ltb (count_in now cfg.ip_fails_window ip counted.ip_fails) cfg.ip_fails_limit
    then counted
    else if banned
    then looked
    else escalate fails now ip cfg looked

record_failures : Faults → ℕ → List Text → Thresholds → Limits → Limits
unfolding record_ip_failure
record_failures fails now [] cfg l = l
record_failures fails now (ip ∷ ips) cfg l =
    record_failures (after_faults 4 fails) now ips cfg (record_ip_failure fails now ip cfg l)

-- recordRequestFailure
unfoldable pub record_request_failure :
    Faults → ℕ → Text → Option Text → Thresholds → Limits → Limits
unfolding record_failures request_ip_keys
record_request_failure fails now client user_ip cfg l =
    record_failures fails now (request_ip_keys client user_ip) cfg l

reset_emails : List Text → FailCounter → FailCounter
unfolding FailCounter.reset to_lower
reset_emails [] c = c
reset_emails (e ∷ es) c = reset_emails es (FailCounter.reset (to_lower e) c)

clear_ips : Faults → List Text → Limits → Limits
unfolding FailCounter.reset unban
clear_ips fails [] l = l
clear_ips fails (ip ∷ ips) l =
    let (table, v, _) = unban (fails 0) ip (l.ban_table, l.ban_view) in
    clear_ips (after_faults 1 fails) ips
      (record l { ip_fails = FailCounter.reset ip l.ip_fails; ban_table = table; ban_view = v })

-- clearSuccessfulAuthState, with the session's email, MAC and address and the identities given.
unfoldable pub clear_successful_auth_state :
    Faults → Text → Text → Text → Text → List Text → Limits → Limits
unfolding reset_emails clear_ips unique_non_empty request_ip_keys is_empty FailCounter.reset
clear_successful_auth_state fails client session_email mac user_ip emails l =
    let email_keys = if is_empty session_email then emails else session_email ∷ emails in
    let l' = record l {
      auth_email_fails = reset_emails (unique_non_empty email_keys) l.auth_email_fails;
      guest_code_fails =
          if is_empty mac then l.guest_code_fails else FailCounter.reset mac l.guest_code_fails;
    } in
    clear_ips fails (request_ip_keys client (some user_ip)) l'
