-- ===== src/Tests/Events.antt =====
-- The event log, the policies, the batches of codes and the limits at concrete inputs.
use wi_fi_roaming_with_i_kua.Prelude.{
  ℕ, ◌+◌, ◌≤◌, ◌≡◌, refl, true, List, [], ◌∷◌, none, some, length, arith, false,
}
use wi_fi_roaming_with_i_kua.Text.{bytes, text_eq, trim_space, contains, is_empty}
use wi_fi_roaming_with_i_kua.Database.{Faults, no_faults}
use wi_fi_roaming_with_i_kua.Numbers.{pos, is_negative}
use wi_fi_roaming_with_i_kua.EventLog.{Event, EventRow, is_past, prune}
use wi_fi_roaming_with_i_kua.EventLog.Batches.{is_ordered, fresh}
use wi_fi_roaming_with_i_kua.EventLog.Prune.{IsSwept, prune-fresh, prune-IsSwept}
use wi_fi_roaming_with_i_kua.EventLog.Export.{all_rows_plain, event_rows, event_rows-plain}
use wi_fi_roaming_with_i_kua.Config.{RouterPolicy, PolicyDefaults}
use wi_fi_roaming_with_i_kua.Policies.{
  PolicyStore, profile_name, get_policy, set_policy, validate_policy, normalize_policy,
}
use wi_fi_roaming_with_i_kua.Policies
use wi_fi_roaming_with_i_kua.Policies.Cached.{get_policy-set_policy}
use wi_fi_roaming_with_i_kua.Forms.{capped}
use wi_fi_roaming_with_i_kua.GuestCodes.Rows.{normalize_code}
use wi_fi_roaming_with_i_kua.CodePages.{
  Draws, numeric, batch_codes, generate_code, letters, at_least, byte_at, alphabet,
}
use wi_fi_roaming_with_i_kua.CodePages.Batch.{distinct_keys, distinct_keys-batch_codes}
use wi_fi_roaming_with_i_kua.EventLog.{empty_table}
use wi_fi_roaming_with_i_kua.FailCounter.{FailCounter}
use wi_fi_roaming_with_i_kua.RateLimit.{Limits}
use wi_fi_roaming_with_i_kua.AdminGate.{admits}
use wi_fi_roaming_with_i_kua.LimitPages.{LimitPortal, handle_rate_limit_reset}
use wi_fi_roaming_with_i_kua.LimitPages.Lifts.{IsLifted, reset_lifts}

abbrev event : Event
event = record {
  time = none;
  kind = bytes "login";
  subject = bytes "=1+1";
  result = bytes "success";
  method = bytes "sso";
  mac = [];
  ip = [];
  detail = [];
}

abbrev table_rows : List EventRow
table_rows =
    record { id = 1; time = 10; event = event } ∷ record { id = 2; time = 95; event = event } ∷ []

prune-fresh_example :
    ((prune no_faults 100 (pos 50) table_rows).0 ≡ fresh (is_past 100 50) table_rows)
    × ((prune no_faults 100 (pos 50) table_rows).1
          + length (prune no_faults 100 (pos 50) table_rows).0
        ≡ 2)
unfolding is_ordered is_past
prune-fresh_example = prune-fresh 100 49 0 table_rows refl (omega arith)

abbrev delete_fails : Faults
delete_fails i = true

prune-IsSwept_example :
    IsSwept (is_past 100 50) table_rows 0 (prune delete_fails 100 (pos 50) table_rows)
unfolding is_ordered
prune-IsSwept_example = prune-IsSwept delete_fails 100 49 0 table_rows refl

event_rows-plain_example : all_rows_plain (event_rows (λ t. []) table_rows) ≡ true
event_rows-plain_example = event_rows-plain (λ t. []) table_rows

abbrev slow : RouterPolicy
slow = record { upload = pos 100; download = pos 100; timeout = pos 30; comment = bytes " hall" }

abbrev defaults : PolicyDefaults
defaults = record { sso = slow; duo = slow; guest = slow }

abbrev empty_store : PolicyStore
empty_store = record { table = []; cache = some [] }

get_policy-set_policy_example :
    (get_policy defaults
      (set_policy no_faults (profile_name Policies.guest) slow empty_store).0
      Policies.guest)
    ≡ record slow { timeout = pos 0; comment = bytes "hall" }
unfolding validate_policy profile_name normalize_policy text_eq trim_space is_negative
get_policy-set_policy_example =
    get_policy-set_policy defaults Policies.guest Policies.guest slow empty_store refl refl

abbrev nines : ℕ → Draws
nines attempt at size = some attempt

distinct_keys-batch_codes_example :
    (distinct_keys [] (bytes "000000" ∷ bytes "111111" ∷ []) ≡ true)
    × (length (bytes "000000" ∷ bytes "111111" ∷ []) ≤ 2)
unfolding batch_codes generate_code letters capped at_least contains normalize_code byte_at alphabet
distinct_keys-batch_codes_example =
    distinct_keys-batch_codes nines numeric 6 5 0 2 [] (bytes "000000" ∷ bytes "111111" ∷ []) refl

abbrev failures : FailCounter
failures = record { entries = (bytes "10.0.0.9", 10 ∷ []) ∷ []; max_window = 100 }

abbrev banned_limits : Limits
banned_limits = record {
  auth_email_fails = failures;
  guest_code_fails = failures;
  ip_fails = failures;
  ban_table = (bytes "10.0.0.9", 900) ∷ [];
  ban_view = record { cache = (bytes "10.0.0.9", 900) ∷ []; refreshed = 10; truncated = false };
  ban_history = (bytes "10.0.0.9", 2) ∷ [];
}

abbrev limit_portal : LimitPortal
limit_portal = record {
  limits = banned_limits;
  denied = [];
  policies = empty_store;
  events = empty_table;
}

reset_lifts_example :
    IsLifted false 30 100
      (trim_space (bytes " 10.0.0.9"))
      (handle_rate_limit_reset no_faults 20
        (bytes "10.0.0.2")
        (bytes "POST")
        (admits record { upn = bytes "ann@x"; exp = 90 })
        (bytes "ip_ban")
        (bytes " 10.0.0.9")
        limit_portal).0.limits
unfolding trim_space is_empty
reset_lifts_example =
    reset_lifts no_faults 20 30 100 false (bytes "10.0.0.2") (bytes "ip_ban") (bytes " 10.0.0.9")
      (record { upn = bytes "ann@x"; exp = 90 }) limit_portal refl refl refl refl
