-- ===== src/LimitPages.antt =====
-- portal/main.go: the pages of the administration that lift limits, change the denylist and set the
-- router's policies. A page takes what `requireAdmin` answers to its request; the statements of a
-- call fail by their order. The quoting of fmt's %q is a parameter.
pub mod Lifts
pub mod Import
use wi_fi_roaming_with_i_kua.Prelude.{
  ℕ, suc, Bool, List, [], ◌∷◌, ◌++◌, Option, none, some, if◌then◌else◌,
}
use wi_fi_roaming_with_i_kua.Text.{Text, bytes, text_eq, is_empty, to_lower, trim_space}
use wi_fi_roaming_with_i_kua.Database.{Faults}
use wi_fi_roaming_with_i_kua.Numbers.{ℤ, pos, negsuc, itoa}
use wi_fi_roaming_with_i_kua.FailCounter
use wi_fi_roaming_with_i_kua.BanHistory
use wi_fi_roaming_with_i_kua.IpBans.{unban, unban_all}
use wi_fi_roaming_with_i_kua.RateLimit.{Limits}
use wi_fi_roaming_with_i_kua.Denylist.{
  DeniedMac, normalize_mac, add_mac, delete_mac, delete_all_macs,
}
use wi_fi_roaming_with_i_kua.Config.{RouterPolicy, PolicyDefaults}
use wi_fi_roaming_with_i_kua.Policies.{
  PolicyProfile, guest, PolicyStore, PolicyError, parse_profile, profile_name, get_policy,
  set_policy,
}
use wi_fi_roaming_with_i_kua.EventLog.{Table, log_admin_action}
use wi_fi_roaming_with_i_kua.Cookies.{AdminSession}
use wi_fi_roaming_with_i_kua.AdminGate.{Gate, admits, refuses, Refusal}
use wi_fi_roaming_with_i_kua.Forms.{parse_int_default, cap_len}

-- What the pages change.
pub record LimitPortal : Type 0 where
  pub limits : Limits
  pub denied : List DeniedMac
  pub policies : PolicyStore
  pub events : Table

pub data Reply : Type 0 where
  fails_with : ℕ → Text → Reply
  not_admitted : Refusal → Reply
  bad_mac : Reply
  bad_policy : PolicyError → Reply
  done : Reply
  cleared_all : List ℕ → Reply
  denies : Bool → Text → Reply
  allows : Bool → Reply
  cleared : ℕ → Reply
  imported : ℕ → ℕ → Reply

-- The method and the gate that each handler begins with.
unfoldable pub gated :
    Text → Gate → LimitPortal → (AdminSession → LimitPortal × Reply) → LimitPortal × Reply
gated http_method gate p body =
    let inside : LimitPortal × Reply = elim gate [
      | refuses r ↦ (p, not_admitted r)
      | admits s ↦ body s
    ] in
    if text_eq http_method (bytes "POST")
    then inside
    else (p, fails_with 405 (bytes "method_not_allowed"))

unfoldable pub recorded : Bool → ℕ → AdminSession → Text → Text → LimitPortal → LimitPortal
recorded fails now admin client detail p = record p {
  events = log_admin_action fails now admin.upn client (bytes "success") detail p.events;
}

-- The types of a reset: the limits, and how many statements ran; none for another type.
unfoldable pub reset_limits : Faults → Text → Text → Limits → Option (Limits × ℕ)
reset_limits fails type key l =
    let (table, view, lifted) = unban (fails 0) key (l.ban_table, l.ban_view) in
    if text_eq type (bytes "ip_ban")
    then some (
      record l {
        ban_table = table;
        ban_view = view;
        ip_fails = FailCounter.reset key l.ip_fails;
        ban_history = BanHistory.reset (fails 1) key l.ban_history;
      },
      2,
    )
    else if text_eq type (bytes "ip_fails")
    then some (record l { ip_fails = FailCounter.reset key l.ip_fails }, 0)
    else if text_eq type (bytes "email")
    then some
        (record l { auth_email_fails = FailCounter.reset (to_lower key) l.auth_email_fails }, 0)
    else if text_eq type (bytes "mac")
    then some (record l { guest_code_fails = FailCounter.reset key l.guest_code_fails }, 0)
    else none

-- handleRateLimitReset
unfoldable pub handle_rate_limit_reset :
    Faults → ℕ → Text → Text → Gate → Text → Text → LimitPortal → LimitPortal × Reply
handle_rate_limit_reset fails now client http_method gate type_field key_field p =
    gated http_method gate p (λ admin.
      let type = trim_space type_field in
      let key = trim_space key_field in
      let detail = bytes "reset type=" ++ (type ++ (bytes " key=" ++ key)) in
      if is_empty key
      then (p, fails_with 400 (bytes "missing_key"))
      else elim (reset_limits fails type key p.limits) [
        | none ↦ (p, fails_with 400 (bytes "invalid_type"))
        | some r ↦ (recorded (fails r.1) now admin client detail (record p { limits = r.0 }), done)
      ])

-- A map of counts as fmt writes it.
unfoldable pub counts_text : List (Text × ℕ) → Text
counts_text [] = []
counts_text ((name, n) ∷ []) = name ++ (b':' ∷ itoa n)
counts_text ((name, n) ∷ c ∷ counts) =
    name ++ (b':' ∷ (itoa n ++ (b' ' ∷ counts_text (c ∷ counts))))

-- handleRateLimitResetAll: statements 0 and 1 lift the cooldowns, 2 clears the history.
unfoldable pub handle_rate_limit_reset_all :
    Faults → ℕ → Text → Text → Gate → LimitPortal → LimitPortal × Reply
handle_rate_limit_reset_all fails now client http_method gate p = gated http_method gate p (λ admin.
    let l = p.limits in
    let (table, view, bans) = unban_all (fails 0) (fails 1) now (l.ban_table, l.ban_view) in
    let (history, counts) = BanHistory.reset_all (fails 2) l.ban_history in
    let (emails, email_keys) = FailCounter.reset_all l.auth_email_fails in
    let (macs, mac_keys) = FailCounter.reset_all l.guest_code_fails in
    let (ips, ip_keys) = FailCounter.reset_all l.ip_fails in
    let q : LimitPortal = record p {
      limits = record l {
        auth_email_fails = emails;
        guest_code_fails = macs;
        ip_fails = ips;
        ban_table = table;
        ban_view = view;
        ban_history = history;
      };
    } in
    let detail =
      bytes "reset-all map["
      ++ (counts_text (
            (bytes "ban_history", counts)
            ∷ (bytes "email_fails", email_keys)
            ∷ (bytes "guest_mac_fails", mac_keys)
            ∷ (bytes "ip_bans", bans)
            ∷ (bytes "ip_fails", ip_keys)
            ∷ [])
          ++ bytes "]") in
    (
      recorded (fails 3) now admin client detail q,
      cleared_all (bans ∷ counts ∷ email_keys ∷ mac_keys ∷ ip_keys ∷ []),
    ))

-- handleDenyMACCreate: statements 0 and 1 add the device, 2 records it.
unfoldable pub handle_deny_mac_create :
    Faults → ℕ → Text → Text → Gate → Text → Text → LimitPortal → LimitPortal × Reply
handle_deny_mac_create fails now client http_method gate mac_field reason_field p =
    gated http_method gate p (λ admin.
      let reason = cap_len (trim_space reason_field) 256 in
      let added = add_mac fails now (trim_space mac_field) reason admin.upn p.denied in
      elim added.1 [
        | none ↦ (p, bad_mac)
        | some item ↦
            let q : LimitPortal = record p {
              denied = added.0;
              limits = record (p.limits) {
                guest_code_fails = FailCounter.reset item.0.mac p.limits.guest_code_fails;
              };
            } in
            let detail = bytes "mac=" ++ (item.0.mac ++ (bytes " ban reason=" ++ item.0.reason)) in
            (
              if item.1 then recorded (fails 2) now admin client detail q else q,
              denies item.1 item.0.mac,
            )
      ])

-- handleDenyMACDelete
unfoldable pub handle_deny_mac_delete :
    Faults → ℕ → Text → Text → Gate → Text → LimitPortal → LimitPortal × Reply
handle_deny_mac_delete fails now client http_method gate mac_field p =
    gated http_method gate p (λ admin.
      let mac = trim_space mac_field in
      let norm = normalize_mac mac in
      let gone = delete_mac (fails 0) norm p.denied in
      let q : LimitPortal = record p { denied = gone.0 } in
      let detail = bytes "mac=" ++ (norm ++ bytes " unban") in
      if is_empty mac
      then (p, fails_with 400 (bytes "missing_mac"))
      else (if gone.1 then recorded (fails 1) now admin client detail q else q, allows gone.1))

-- handleDenyMACDeleteAll
unfoldable pub handle_deny_mac_delete_all :
    Faults → ℕ → Text → Text → Gate → LimitPortal → LimitPortal × Reply
handle_deny_mac_delete_all fails now client http_method gate p = gated http_method gate p (λ admin.
    let gone = delete_all_macs (fails 0) p.denied in
    (
      recorded (fails 1) now admin client (bytes "mac unban-all cleared=" ++ itoa gone.1)
          (record p { denied = gone.0 }),
      cleared gone.1,
    ))

unfoldable pub itoa_int : ℤ → Text
itoa_int (pos n) = itoa n
itoa_int (negsuc n) = b'-' ∷ itoa (suc n)

-- What a policy's change says of one field, by the texts of its values.
unfoldable pub field_change : Text → Text → Text → List Text
field_change name old new =
    if text_eq old new then [] else (name ++ (b' ' ∷ (old ++ (bytes "->" ++ new)))) ∷ []

-- strings.Join with a comma and a space.
unfoldable pub join_parts : List Text → Text
join_parts [] = []
join_parts (s ∷ []) = s
join_parts (s ∷ t ∷ l) = s ++ (bytes ", " ++ join_parts (t ∷ l))

module _ (quote : Text → Text) where
  unfoldable pub comment_change : Text → Text → List Text
  comment_change old new =
      if text_eq old new
      then []
      else (bytes "comment " ++ (quote old ++ (bytes "->" ++ quote new))) ∷ []

  -- ikuaiPolicyDiff
  unfoldable pub ikuai_policy_diff : PolicyProfile → RouterPolicy → RouterPolicy → Text
  ikuai_policy_diff profile old cur =
      let said = bytes "policy " ++ (profile_name profile ++ bytes ": ") in
      let parts =
        field_change (bytes "upload") (itoa_int old.upload) (itoa_int cur.upload)
        ++ (field_change (bytes "download") (itoa_int old.download) (itoa_int cur.download)
            ++ (field_change (bytes "timeout") (itoa_int old.timeout) (itoa_int cur.timeout)
                ++ comment_change old.comment cur.comment)) in
      elim parts [
        | [] ↦ said ++ bytes "(unchanged)"
        | part ∷ more ↦ said ++ join_parts (part ∷ more)
      ]

  -- The policy of a form.
  unfoldable pub form_policy : PolicyProfile → Text → Text → Text → Text → RouterPolicy
  form_policy profile upload download timeout comment =
      let set : RouterPolicy = record {
        upload = parse_int_default upload (pos 0);
        download = parse_int_default download (pos 0);
        timeout = parse_int_default timeout (pos 0);
        comment = cap_len (trim_space comment) 128;
      } in
      if text_eq (profile_name profile) (profile_name guest)
      then record set { timeout = pos 0 }
      else set

  -- handleIKuaiPolicyUpdate: statements 0 and 1 set the policy, 2 records it.
  unfoldable pub handle_ikuai_policy_update :
      PolicyDefaults
      → Faults
      → ℕ
      → Text
      → Text
      → Gate
      → Text
      → Text
      → Text
      → Text
      → Text
      → LimitPortal
      → LimitPortal × Reply
  handle_ikuai_policy_update d fails now client http_method gate name upload download timeout
        comment p =
      gated http_method gate p (λ admin. elim (parse_profile name) [
        | none ↦ (p, fails_with 400 (bytes "invalid_profile"))
        | some profile ↦
            let policy = form_policy profile upload download timeout comment in
            let old = get_policy d p.policies profile in
            let saved = set_policy fails (profile_name profile) policy p.policies in
            let q : LimitPortal = record p { policies = saved.0 } in
            elim saved.1 [
              | some e ↦ (q, bad_policy e)
              | none ↦ (
                recorded (fails 2) now admin client (ikuai_policy_diff profile old policy) q,
                done,
              )
            ]
      ])
