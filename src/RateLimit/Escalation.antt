-- ===== src/RateLimit/Escalation.antt =====
-- When an address is cooled down, for how long, and what a success clears.
use wi_fi_roaming_with_i_kua.Prelude.{
  ℕ, ◌+◌, ◌-◌, ◌≤◌, ◌<◌, ◌≡◌, refl, Bool, true, false, some, ◌⊎◌, leb, if◌then◌else◌, arith, ◌==◌,
}
use wi_fi_roaming_with_i_kua.Text.{Text, is_empty}
use wi_fi_roaming_with_i_kua.Text.Laws.{text_eq_refl}
use wi_fi_roaming_with_i_kua.Maps.{lookup}
use wi_fi_roaming_with_i_kua.Maps.Laws.{lookup-put}
use wi_fi_roaming_with_i_kua.FailCounter.{record_fail, count_in}
use wi_fi_roaming_with_i_kua.IpBans.{is_banned}
use wi_fi_roaming_with_i_kua.IpBans.Enforcement.{extended, lookup-ban_table}
use wi_fi_roaming_with_i_kua.BanHistory.{History, count_of, increment, get}
use wi_fi_roaming_with_i_kua.Database.{Faults, no_faults}
use wi_fi_roaming_with_i_kua.RateLimit.{
  Thresholds, Limits, permanent_ban_until, cool_down, escalate, record_ip_failure,
}

-- How long the next cooldown of an address lasts, after so many.
abbrev pub penalty : ℕ → Thresholds → ℕ → ℕ
penalty now cfg prior =
    if cfg.ip_ban_escalate_at == 0
    then cfg.ip_ban_duration
    else if leb cfg.ip_ban_escalate_at (prior + 1)
    then permanent_ban_until - now
    else cfg.ip_ban_duration

-- The history after the cooldown: not kept when escalation is off.
abbrev pub counted : Thresholds → ℕ → ℕ
counted cfg prior = if cfg.ip_ban_escalate_at == 0 then prior else prior + 1

increment_lem :
    (ip : Text) (h : History)
    → is_empty ip ≡ false
    → ((increment false false ip h).1 ≡ count_of (lookup ip h) + 1)
      × (count_of (lookup ip (increment false false ip h).0) ≡ count_of (lookup ip h) + 1)
unfolding increment get count_of
increment_lem ip h named =
    ground (arith, lookup-put ip ip (count_of (lookup ip h) + 1) h, text_eq_refl ip)

cool_down_table :
    (now : ℕ) (ip : Text) (d : ℕ) (l : Limits)
    → is_empty ip ≡ false
    → lookup ip (cool_down false now ip d l).ban_table
      ≡ some (extended (lookup ip l.ban_table) (now + d))
unfolding cool_down
cool_down_table now ip d l named = lookup-ban_table now ip d l.ban_table l.ban_view named

cool_down_history :
    (fails : Bool) (now : ℕ) (ip : Text) (d : ℕ) (l : Limits)
    → (cool_down fails now ip d l).ban_history ≡ l.ban_history
unfolding cool_down
cool_down_history fails now ip d l = refl

escalate_lem :
    (now : ℕ) (ip : Text) (cfg : Thresholds) (l : Limits)
    → is_empty ip ≡ false
    → (lookup ip (escalate no_faults now ip cfg l).ban_table
        ≡ some (
            extended
              (lookup ip l.ban_table)
              (now + penalty now cfg (count_of (lookup ip l.ban_history)))))
      × (count_of (lookup ip (escalate no_faults now ip cfg l).ban_history)
          ≡ counted cfg (count_of (lookup ip l.ban_history)))
unfolding escalate
escalate_lem now ip cfg l named =
    let (history, n) = increment false false ip l.ban_history in
    let l' = record l { ban_history = history } in
    let long = permanent_ban_until - now in
    ground (
      arith,
      increment_lem ip l.ban_history named,
      cool_down_table now ip cfg.ip_ban_duration l named,
      cool_down_table now ip cfg.ip_ban_duration l' named,
      cool_down_table now ip long l' named,
      cool_down_history false now ip cfg.ip_ban_duration l,
      cool_down_history false now ip cfg.ip_ban_duration l',
      cool_down_history false now ip long l',
    )

-- The state that the last part of recordIPFailure starts from.
abbrev looked : ℕ → Text → Limits → Limits
looked now ip l = record l {
  ip_fails = record_fail now ip l.ip_fails;
  ban_view = (is_banned false now ip l.ban_table l.ban_view).0;
}

-- While every statement of the call works, an address that has a name, is over its limit and is not
-- banned gets a cooldown: the configured one, or a permanent one from the configured cooldown on, if
-- there is such a number; the cooldown never ends before one that the table holds already. The
-- history counts it unless escalation is off.
pub escalation :
    (now : ℕ) (ip : Text) (cfg : Thresholds) (l : Limits)
    → is_empty ip ≡ false
    → cfg.ip_fails_limit ≤ count_in now cfg.ip_fails_window ip (record_fail now ip l.ip_fails)
    → (is_banned false now ip l.ban_table l.ban_view).1 ≡ false
    → (lookup ip (record_ip_failure no_faults now ip cfg l).ban_table
        ≡ some (
            extended
              (lookup ip l.ban_table)
              (now + penalty now cfg (count_of (lookup ip l.ban_history)))))
      × (count_of (lookup ip (record_ip_failure no_faults now ip cfg l).ban_history)
          ≡ counted cfg (count_of (lookup ip l.ban_history)))
unfolding record_ip_failure
escalation now ip cfg l named over free =
    ground (arith, escalate_lem now ip cfg (looked now ip l) named)

-- Below the limit, or while the address is banned, a failure is counted and nothing else: the bans
-- and the history stay as they are, whichever statements fail.
pub no_escalation :
    (fails : Faults) (now : ℕ) (ip : Text) (cfg : Thresholds) (l : Limits)
    → (count_in now cfg.ip_fails_window ip (record_fail now ip l.ip_fails) < cfg.ip_fails_limit)
      ⊎ ((is_banned (fails 0) now ip l.ban_table l.ban_view).1 ≡ true)
    → ((record_ip_failure fails now ip cfg l).ban_table ≡ l.ban_table)
      × ((record_ip_failure fails now ip cfg l).ban_history ≡ l.ban_history)
      × ((record_ip_failure fails now ip cfg l).ip_fails ≡ record_fail now ip l.ip_fails)
unfolding record_ip_failure
no_escalation fails now ip cfg l why = ground arith
