-- ===== src/SignIn/Redeem/Guests.antt =====
-- Which guests are let onto the network, and what a wrong code costs.
use wi_fi_roaming_with_i_kua.Prelude.{
  ℕ, ◌<◌, ◌≡◌, refl, subst, Bool, true, false, ◌++◌, Option, none, some, arith, Option-cases, inl,
  inr,
}
use wi_fi_roaming_with_i_kua.Text.{Text, bytes, trim_space}
use wi_fi_roaming_with_i_kua.Database.{Faults, after_faults}
use wi_fi_roaming_with_i_kua.FailCounter.{count_in}
use wi_fi_roaming_with_i_kua.RateLimit.{Thresholds, banned_ip_for_request}
use wi_fi_roaming_with_i_kua.GuestCodes.Rows.{Tables, GuestCode}
use wi_fi_roaming_with_i_kua.GuestCodes.Store.{validate}
use wi_fi_roaming_with_i_kua.Denylist.{is_mac_denied}
use wi_fi_roaming_with_i_kua.SignIn.{
  Session, Portal, Profile, Grant, Response, Rule, banned_ip, write_rate_limited,
}
use wi_fi_roaming_with_i_kua.SignIn.Redeem.{
  GuestRequest, refuse_code, grant_guest, redeem_code, check_device, limit_device, redeem_form,
  handle_guest_code,
}

-- A response that lets a device onto the network.
abbrev pub is_grant : Response → Bool
is_grant (Response.refuses n s) = false
is_grant (Response.limits_rate r) = false
is_grant (Response.redirects s) = false
is_grant (Response.grants g) = true
is_grant (Response.answers s) = false
is_grant (Response.signs_admin_in s) = false
is_grant Response.crashes = false

-- The call of Validate that the handler makes.
abbrev pub validated :
    Faults → ℕ → GuestRequest → Text → Session → Tables → Tables × Option GuestCode
validated fs now r guest_id sess t =
    validate (after_faults 1 (after_faults 3 fs)) now (trim_space r.code) sess.mac sess.user_ip
      (bytes "Guest-" ++ guest_id) t

no_grant-write_rate_limited :
    (fails : Bool) (now : ℕ) (rule : Rule) (ip : Text) (cfg : Thresholds) (p : Portal)
    → is_grant (write_rate_limited fails now rule ip cfg p).1 ≡ false
unfolding write_rate_limited
no_grant-write_rate_limited fails now Rule.ip_ban ip cfg p = refl
no_grant-write_rate_limited fails now Rule.email_short ip cfg p = refl
no_grant-write_rate_limited fails now Rule.email_long ip cfg p = refl
no_grant-write_rate_limited fails now Rule.mac_rule ip cfg p = refl

redeem_checks :
    (fs : Faults) (now : ℕ) (r : GuestRequest) (sess : Session) (cfg : Thresholds) (p : Portal)
    (g : Grant)
    → (redeem_code fs now r sess cfg p).1 ≡ Response.grants g
    → (guest_id : Text) × (c : GuestCode) × (r.guest_id ≡ some guest_id)
      × ((validate fs now
            (trim_space r.code)
            sess.mac
            sess.user_ip
            (bytes "Guest-" ++ guest_id)
            p.guest_codes).1
          ≡ some c)
      × (Response.grants g
          ≡ Response.grants (record {
            ip = sess.user_ip;
            mac = sess.mac;
            upn = bytes "Guest-" ++ guest_id;
            profile = Profile.guest_profile;
            timeout = some c.duration_min;
          }))
unfolding redeem_code refuse_code grant_guest
redeem_checks fs now r sess cfg p g granted = elim (Option-cases r.guest_id) [
  | inl e ↦ ground (arith, e, granted)
  | inr (guest_id, e) ↦
      let v =
        validate fs now (trim_space r.code) sess.mac sess.user_ip (bytes "Guest-" ++ guest_id)
          p.guest_codes in
      elim (Option-cases v.1) [
        | inl n ↦ ground (arith, e, n, granted)
        | inr (c, n) ↦ (guest_id, c, e, n, ground (arith, e, n, granted))
      ]
]

no_grant-limit_device :
    (fs : Faults) (now : ℕ) (client : Text) (sess : Session) (cfg : Thresholds) (p : Portal)
    → is_grant (limit_device fs now client sess cfg p).1 ≡ false
unfolding limit_device
no_grant-limit_device fs now client sess cfg p = ground (
  arith,
  (λ (rule : Rule) (ip : Text) (q : Portal). no_grant-write_rate_limited (fs 10) now rule ip cfg q),
)

device_checks :
    (fs : Faults) (now : ℕ) (r : GuestRequest) (sess : Session) (cfg : Thresholds) (p : Portal)
    (g : Grant)
    → (check_device fs now r sess cfg p).1 ≡ Response.grants g
    → (is_mac_denied (fs 0) sess.mac p.denylist ≡ none)
      × (count_in now cfg.guest_code_mac_window sess.mac p.limits.guest_code_fails
          < cfg.guest_code_mac_fails)
      × ((redeem_code (after_faults 1 fs) now r sess cfg p).1 ≡ Response.grants g)
unfolding check_device
device_checks fs now r sess cfg p g granted =
    elim (Option-cases (is_mac_denied (fs 0) sess.mac p.denylist)) [
      | inr (row, d) ↦ ground (arith, d, granted)
      | inl d ↦
          ground
            (arith, d, granted, no_grant-limit_device (after_faults 1 fs) now r.client sess cfg p)
    ]

-- What holds when a guest is let onto the network.
pub record AdmitsGuest (fs : Faults) (now : ℕ) (r : GuestRequest) (sess : Session)
    (cfg : Thresholds) (p : Portal) (g : Grant) : Type 0 where
  pub guest_id : Text
  pub code : GuestCode
  pub not_banned : (banned_ip fs now r.client (some sess.user_ip) p).1 ≡ none
  pub allowed : is_mac_denied (fs 3) sess.mac p.denylist ≡ none
  pub below_limit :
      count_in now cfg.guest_code_mac_window sess.mac p.limits.guest_code_fails
      < cfg.guest_code_mac_fails
  pub drawn : r.guest_id ≡ some guest_id
  pub redeemed : (validated fs now r guest_id sess p.guest_codes).1 ≡ some code
  pub granted :
      Response.grants g
      ≡ Response.grants (record {
        ip = sess.user_ip;
        mac = sess.mac;
        upn = bytes "Guest-" ++ guest_id;
        profile = Profile.guest_profile;
        timeout = some code.duration_min;
      })

-- Only the view of the cooldowns changes in a lookup.
banned_ip-keeps :
    (fs : Faults) (now : ℕ) (client : Text) (user_ip : Option Text) (p : Portal)
    → ((banned_ip fs now client user_ip p).0.denylist ≡ p.denylist)
      × ((banned_ip fs now client user_ip p).0.guest_codes ≡ p.guest_codes)
      × ((banned_ip fs now client user_ip p).0.limits.guest_code_fails ≡ p.limits.guest_code_fails)
unfolding banned_ip banned_ip_for_request
banned_ip-keeps fs now client user_ip p = (refl, refl, refl)

form_admits :
    (fs : Faults) (now : ℕ) (r : GuestRequest) (sess : Session) (cfg : Thresholds) (p : Portal)
    (g : Grant)
    → (redeem_form true fs now r (some sess) cfg p).1 ≡ Response.grants g
    → AdmitsGuest fs now r sess cfg p g
unfolding redeem_form
form_admits fs now r sess cfg p g granted =
    let b = banned_ip fs now r.client (some sess.user_ip) p in
    let k = banned_ip-keeps fs now r.client (some sess.user_ip) p in
    elim (Option-cases b.1) [
      | inr (ip, e) ↦
          ground (arith, e, granted, no_grant-write_rate_limited (fs 2) now Rule.ip_ban ip cfg b.0)
      | inl e ↦
          let d =
            device_checks (after_faults 3 fs) now r sess cfg b.0 g (ground (arith, e, granted)) in
          let c = redeem_checks (after_faults 1 (after_faults 3 fs)) now r sess cfg b.0 g d.2 in
          record {
            guest_id = c.0;
            code = c.1;
            not_banned = e;
            allowed = subst (λ rows. is_mac_denied (fs 3) sess.mac rows ≡ none) k.0 d.0;
            below_limit =
                subst
                  (λ f.
                    count_in now cfg.guest_code_mac_window sess.mac f < cfg.guest_code_mac_fails)
                  k.2 d.1;
            drawn = c.2;
            redeemed = subst (λ t. (validated fs now r c.0 sess t).1 ≡ some c.1) k.1 c.3;
            granted = c.4;
          }
    ]

-- A guest is let onto the network only if the lookups find neither of the request's addresses cooled
-- down nor the session's device denied, the device is below its limit of wrong codes, and Validate
-- redeems the code; the grant is for the session's device and lasts as long as the code says. The
-- lookups may fail: then the cooldowns are those of the view as it was, and no device is denied.
pub guest_admits :
    (fs : Faults) (now : ℕ) (r : GuestRequest) (sess : Session) (cfg : Thresholds) (p : Portal)
    (g : Grant)
    → (handle_guest_code true fs now r (some sess) cfg p).1 ≡ Response.grants g
    → AdmitsGuest fs now r sess cfg p g
unfolding handle_guest_code
guest_admits fs now r sess cfg p g granted =
    form_admits fs now r sess cfg p g (ground (arith, granted))
