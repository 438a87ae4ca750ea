-- ===== src/LimitPages/Lifts.antt =====
-- The page that lifts a cooldown: what is left of the address afterwards.
use wi_fi_roaming_with_i_kua.Prelude.{ℕ, ◌≡◌, subst, sym, Bool, false, some, arith}
use wi_fi_roaming_with_i_kua.Text.{Text, bytes, is_empty, trim_space}
use wi_fi_roaming_with_i_kua.Text.Laws.{text_eq_refl}
use wi_fi_roaming_with_i_kua.Database.{Faults}
use wi_fi_roaming_with_i_kua.Maps.Laws.{lookup-delete}
use wi_fi_roaming_with_i_kua.FailCounter.{FailCounter, count_in, times_of}
use wi_fi_roaming_with_i_kua.FailCounter
use wi_fi_roaming_with_i_kua.BanHistory.{History, get, count_of}
use wi_fi_roaming_with_i_kua.BanHistory
use wi_fi_roaming_with_i_kua.IpBans.{is_banned, unban}
use wi_fi_roaming_with_i_kua.IpBans.Enforcement.{unban_lifts}
use wi_fi_roaming_with_i_kua.RateLimit.{Limits}
use wi_fi_roaming_with_i_kua.Cookies.{AdminSession}
use wi_fi_roaming_with_i_kua.AdminGate.{admits}
use wi_fi_roaming_with_i_kua.LimitPages.{
  LimitPortal, gated, recorded, reset_limits, handle_rate_limit_reset,
}

get-reset :
    (fails : Bool) (ip : Text) (h : History) → get fails ip (BanHistory.reset false ip h) ≡ 0
unfolding get BanHistory.reset count_of
get-reset fails ip h = ground (arith, lookup-delete ip ip h, text_eq_refl ip)

count_in-reset :
    (now window : ℕ) (key : Text) (c : FailCounter)
    → count_in now window key (FailCounter.reset key c) ≡ 0
unfolding count_in FailCounter.reset
count_in-reset now window key c = ground (arith, lookup-delete key key c.entries, text_eq_refl key)

-- What a reset of a cooldown leaves of the limits.
abbrev lifted : Text → Limits → Limits
lifted key l =
    let (table, view, was) = unban false key (l.ban_table, l.ban_view) in
    record l {
      ban_table = table;
      ban_view = view;
      ip_fails = FailCounter.reset key l.ip_fails;
      ban_history = BanHistory.reset false key l.ban_history;
    }

-- No cooldown, no failures and no history for an address.
abbrev pub IsLifted : Bool → ℕ → ℕ → Text → Limits → Type 0
IsLifted read_fails now window ip l =
    ((is_banned read_fails now ip l.ban_table l.ban_view).1 ≡ false)
    × (count_in now window ip l.ip_fails ≡ 0)
    × (get read_fails ip l.ban_history ≡ 0)

reset_limits-lifted :
    (fails : Faults) (key : Text) (l : Limits)
    → fails 0 ≡ false
    → fails 1 ≡ false
    → reset_limits fails (bytes "ip_ban") key l ≡ some (lifted key l, 2)
unfolding reset_limits
reset_limits-lifted fails key l ok ok_too =
    ground (arith, ok, ok_too, text_eq_refl (bytes "ip_ban"))

limits-handle_rate_limit_reset :
    (fails : Faults) (now : ℕ) (client type_field key_field : Text) (s : AdminSession)
    (p : LimitPortal)
    → trim_space type_field ≡ bytes "ip_ban"
    → is_empty (trim_space key_field) ≡ false
    → fails 0 ≡ false
    → fails 1 ≡ false
    → (handle_rate_limit_reset fails now client
        (bytes "POST")
        (admits s)
        type_field
        key_field
        p).0.limits
      ≡ lifted (trim_space key_field) p.limits
unfolding handle_rate_limit_reset gated recorded
limits-handle_rate_limit_reset fails now client type_field key_field s p is_ban filled ok ok_too =
    rw (
      is_ban,
      filled,
      reset_limits-lifted fails (trim_space key_field) p.limits ok ok_too,
      text_eq_refl (bytes "POST"),
    )

-- An administrator who resets the cooldown of an address, while the statements of the reset work,
-- leaves the address with no cooldown on this instance, whatever reads fail later, with no failure
-- counted, and with no history that would make its next cooldown permanent.
pub reset_lifts :
    (fails : Faults) (now later window : ℕ) (read_fails : Bool) (client type_field key_field : Text)
    (s : AdminSession) (p : LimitPortal)
    → trim_space type_field ≡ bytes "ip_ban"
    → is_empty (trim_space key_field) ≡ false
    → fails 0 ≡ false
    → fails 1 ≡ false
    → IsLifted read_fails later window
        (trim_space key_field)
        (handle_rate_limit_reset fails now client
          (bytes "POST")
          (admits s)
          type_field
          key_field
          p).0.limits
reset_lifts fails now later window read_fails client type_field key_field s p is_ban filled ok
      ok_too =
    let key = trim_space key_field in
    subst (IsLifted read_fails later window key)
      (sym (
        limits-handle_rate_limit_reset fails now client type_field key_field s p is_ban filled ok
          ok_too))
      (
        unban_lifts read_fails later key p.limits.ban_table p.limits.ban_view,
        count_in-reset later window key p.limits.ip_fails,
        get-reset read_fails key p.limits.ban_history,
      )
