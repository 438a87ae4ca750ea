-- ===== src/Tests/Devices.antt =====
-- The denylist and the listener changes at concrete inputs.
use wi_fi_roaming_with_i_kua.Prelude.{
  ℕ, true, Bool, ◌+◌, ◌*◌, ◌≡◌, ◌≤◌, refl, false, List, [], ◌∷◌, none, some, arith,
}
use wi_fi_roaming_with_i_kua.Text.{Text, bytes, text_eq}
use wi_fi_roaming_with_i_kua.Database.{no_faults}
use wi_fi_roaming_with_i_kua.Denylist.{
  mac_digits, normalize_mac, DeniedMac, find_mac, is_mac_denied, denied_row, add_mac, MacInput,
}
use wi_fi_roaming_with_i_kua.Denylist.Bans.{ban_denies}
use wi_fi_roaming_with_i_kua.Maps.{lookup}
use wi_fi_roaming_with_i_kua.LocalAdmin.{LocalAdmin, Accounts, max_failures}
use wi_fi_roaming_with_i_kua.LocalAdmin.Lockout.{Attempt, guesses, guesses_bounded}
use wi_fi_roaming_with_i_kua.ListenerCommit.{
  confirm_window, ListenerCommit, new_listener_commit, begin, confirm, expire, confirms, starts,
}
use wi_fi_roaming_with_i_kua.ListenerCommit.Rollback.{
  start, began, other, IsArmed, settled, rollback-IsArmed, stays, then_step, window_kept,
}
use wi_fi_roaming_with_i_kua.LocalAdmin.{is_locked}
use wi_fi_roaming_with_i_kua.LocalAdmin.Concurrent.{finish_all, concurrent_guesses}

abbrev phone : Text
phone = bytes "AA-BB-CC-DD-EE-01"

abbrev spelt_plain : Text
spelt_plain = bytes "aabbccddee01"

abbrev laptop : Text
laptop = bytes "aa:bb:cc:dd:ee:02"

abbrev phone_row : DeniedMac
phone_row = record {
  mac = bytes "aa:bb:cc:dd:ee:01";
  reason = bytes "noise";
  created_at = 9;
  created_by = [];
}

ban_denies_example :
    is_mac_denied false spelt_plain (add_mac no_faults 9 phone (bytes " noise ") [] []).0
    ≡ some phone_row
unfolding add_mac normalize_mac denied_row find_mac mac_digits
ban_denies_example =
    ban_denies no_faults 9 phone (bytes " noise ") [] spelt_plain [] (ground arith) refl refl

abbrev upload : List MacInput
upload =
    record { mac = phone; reason = []; created_by = [] }
    ∷ record { mac = bytes "zz"; reason = []; created_by = [] }
    ∷ []

-- A change, and the start of the callback of its timer.
abbrev first : ListenerCommit
first = begin 0 1 new_listener_commit

abbrev timed_out : ListenerCommit
timed_out = record first { timer = none; waiting = first.waiting + 1 }

rollback-IsArmed_example : IsArmed timed_out × (settled timed_out ≤ 1)
unfolding begin
rollback-IsArmed_example = rollback-IsArmed 1 timed_out (
    other confirm_window (began 0 1 start)
      (starts confirm_window confirm_window first refl (omega arith)))

-- A callback that has started and waits for the lock rolls a change back that began meanwhile, at
-- once, though its window has not passed.
new_change_rolled_back :
    ((begin confirm_window 2 timed_out).deadline ≡ 2 * confirm_window)
    × ((expire (begin confirm_window 2 timed_out)).rolled_back ≡ 2 ∷ [])
unfolding begin expire
new_change_rolled_back = (refl, refl)

window_kept_example : (confirm (begin 5 1 new_listener_commit)).0.rolled_back ≡ []
window_kept_example =
    window_kept 5 1 new_listener_commit (confirm (begin 5 1 new_listener_commit)).0 refl
      (then_step 6 (omega arith) (confirms 6 (begin 5 1 new_listener_commit)) (stays _))

-- A check that accepts one password.
abbrev knows : List ℕ → Text → Bool
knows password hash = text_eq password hash

abbrev root : LocalAdmin
root = record {
  password_hash = bytes "correct horse";
  enabled = true;
  created_at = 1;
  last_login_at = none;
  failed_attempts = 9;
  locked_until = none;
}

abbrev accounts : Accounts
accounts = (bytes "root", root) ∷ []

abbrev tries : List Attempt
tries =
    record { now = 5; username = bytes "Root "; password = bytes "guess" }
    ∷ record { now = 6; username = bytes "root"; password = bytes "again" }
    ∷ []

guesses_bounded_example : guesses knows (bytes "root") tries accounts ≤ max_failures
unfolding text_eq lookup
guesses_bounded_example =
    guesses_bounded knows tries 0 (bytes "root") accounts root
      (omega arith, omega arith, (λ _. refl), (omega arith, omega arith, (λ _. refl), tt)) refl
      (omega arith)

abbrev tired_root : LocalAdmin
tired_root = record root { failed_attempts = 7 }

concurrent_guesses_example :
    ((finish_all knows (bytes "root") tired_root tries accounts).1 ≡ 2)
    × (lookup (bytes "root") (finish_all knows (bytes "root") tired_root tries accounts).0
        ≡ some (record tired_root { failed_attempts = 8 }))
unfolding text_eq is_locked
concurrent_guesses_example =
    concurrent_guesses knows (bytes "root") tired_root
      (record { now = 5; username = bytes "Root "; password = bytes "guess" })
      (record { now = 6; username = bytes "root"; password = bytes "again" } ∷ []) accounts refl
      (omega arith) (refl, refl, (refl, refl, tt))
