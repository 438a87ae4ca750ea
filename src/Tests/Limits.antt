-- ===== src/Tests/Limits.antt =====
-- The counters, tokens, bans and addresses at concrete inputs.
use wi_fi_roaming_with_i_kua.Prelude.{
  ℕ, ◌≡◌, ◌≢◌, ◌*◌, refl, true, false, List, [], ◌∷◌, Option, none, some, arith,
}
use wi_fi_roaming_with_i_kua.Text.{Text, bytes, text_eq, is_empty}
use wi_fi_roaming_with_i_kua.Text.Laws.{text_eq_iff}
use wi_fi_roaming_with_i_kua.Maps.{lookup, put}
use wi_fi_roaming_with_i_kua.FailCounter.{FailCounter, record_fail, count_in}
use wi_fi_roaming_with_i_kua.FailCounter.Size.{IsBounded, record_fail-IsBounded}
use wi_fi_roaming_with_i_kua.UsedStates.{UsedStateSet, mark_used, is_used}
use wi_fi_roaming_with_i_kua.UsedStates.Replay
use wi_fi_roaming_with_i_kua.UsedStates.Replay.{no_replay, used_states_bounded}
use wi_fi_roaming_with_i_kua.ProceedTokens.{ProceedTokenStore}
use wi_fi_roaming_with_i_kua.ProceedTokens.SingleUse
use wi_fi_roaming_with_i_kua.IpBans.{View, second, ban, is_banned}
use wi_fi_roaming_with_i_kua.IpBans.Interleaved.{
  Shared, Move, queries, bans, installs, looks_up, run,
}
use wi_fi_roaming_with_i_kua.IpBans.Enforcement.{failed_ban_forgotten}
use wi_fi_roaming_with_i_kua.ClientIp.{Request}
use wi_fi_roaming_with_i_kua.BanHistory.{count_of}
use wi_fi_roaming_with_i_kua.Database.{no_faults}
use wi_fi_roaming_with_i_kua.RateLimit.{Thresholds, Limits, permanent_ban_until, record_ip_failure}
use wi_fi_roaming_with_i_kua.RateLimit.Escalation.{escalation}

abbrev host : Text
host = bytes "10.0.0.9"

abbrev guest : Text
guest = bytes "guest"

abbrev empty_counter : FailCounter
empty_counter = record { entries = []; max_window = 100 }

abbrev one_failure : FailCounter
one_failure = record { entries = (host, 10 ∷ []) ∷ []; max_window = 100 }

host≢guest : host ≢ guest
unfolding text_eq
host≢guest = ground (arith, text_eq_iff host guest)

record_fail-IsBounded_example : IsBounded (record_fail 20 guest one_failure)
record_fail-IsBounded_example = record_fail-IsBounded 20 guest one_failure (omega arith)

abbrev no_states : UsedStateSet
no_states = record { states = []; ttl = 600 }

abbrev callbacks : List (ℕ × Replay.Call)
callbacks = (20, Replay.marks guest) ∷ (30, Replay.sweeps) ∷ []

no_replay_example :
    (mark_used 100 host (Replay.run callbacks (mark_used 10 host no_states).0)).1 ≡ false
unfolding mark_used is_empty lookup is_used
no_replay_example =
    no_replay 10 100 host no_states callbacks refl (omega arith) (omega arith, (omega arith, tt))
      (omega arith)

abbrev no_tokens : ProceedTokenStore
no_tokens = record { entries = []; ttl = 60 }

abbrev one_token : ProceedTokenStore
one_token = record {
  entries = (host, record { url = guest; session_state = []; email = []; expires = 70 }) ∷ [];
  ttl = 60;
}

abbrev redirects : List (ℕ × SingleUse.Call)
redirects = (20, SingleUse.puts guest [] [] []) ∷ (30, SingleUse.takes host) ∷ []

abbrev fresh_view : View
fresh_view = record { cache = []; refreshed = 0; truncated = false }

abbrev shared : Shared
shared = record { table = []; view = fresh_view; reading = [] }

abbrev moves : List (ℕ × Move)
moves =
    (second, queries)
    ∷ (second, bans true guest second)
    ∷ (2 * second, installs 0)
    ∷ (2 * second, looks_up host)
    ∷ []

abbrev later_moves : List (ℕ × Move)
later_moves = (second, queries) ∷ (second, installs 0) ∷ (2 * second, looks_up host) ∷ []

failed_ban_forgotten_example :
    (is_banned false
      (3 * second)
      host
      (ban true 0 host (60 * second) ([], fresh_view)).0
      (ban true 0 host (60 * second) ([], fresh_view)).1).1
    ≡ false
unfolding lookup
failed_ban_forgotten_example =
    failed_ban_forgotten 0 (3 * second) host (60 * second) [] fresh_view refl (omega arith)

abbrev settings : Thresholds
settings = record {
  auth_email_fails_short = 5;
  auth_email_window_short = 600 * second;
  auth_email_fails_long = 20;
  auth_email_window_long = 86400 * second;
  guest_code_mac_fails = 5;
  guest_code_mac_window = 600 * second;
  ip_fails_limit = 2;
  ip_fails_window = 600 * second;
  ip_ban_duration = 60 * second;
  ip_ban_escalate_at = 2;
}

-- One failure a moment ago, and one cooldown some time ago.
abbrev suspect : Limits
suspect = record {
  auth_email_fails = empty_counter;
  guest_code_fails = empty_counter;
  ip_fails = record { entries = (host, 1000 * second ∷ []) ∷ []; max_window = 86400 * second };
  ban_table = [];
  ban_view = record { cache = []; refreshed = 1000 * second; truncated = false };
  ban_history = (host, 1) ∷ [];
}

escalation_example :
    (lookup host (record_ip_failure no_faults (1001 * second) host settings suspect).ban_table
      ≡ some permanent_ban_until)
    × (count_of (
          lookup host
            (record_ip_failure no_faults (1001 * second) host settings suspect).ban_history)
        ≡ 2)
unfolding lookup count_of record_fail count_in is_banned is_empty put text_eq
escalation_example = escalation (1001 * second) host settings suspect refl (omega arith) refl

-- A parser that accepts any text, and an address without a port.
abbrev any_ip : Text → Option Text
any_ip s = some s

abbrev no_port : Text → Option Text
no_port s = none

abbrev proxied : Request
proxied = record { real_ip = []; forwarded_for = bytes "1.1.1.1,10.0.0.9"; remote_addr = guest }
