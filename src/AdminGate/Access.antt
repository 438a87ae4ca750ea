-- ===== src/AdminGate/Access.antt =====
-- What it takes to be admitted, and that whoever signs in is.
use wi_fi_roaming_with_i_kua.Prelude.{
  ℕ, ◌+◌, ◌≤◌, ◌≡◌, refl, ap, ◌∙◌, ◌⊎◌, inl, inr, true, List, [], ◌∷◌, Option, none, some, ltb,
  arith, length,
}
use wi_fi_roaming_with_i_kua.Text.{Text, bytes}
use wi_fi_roaming_with_i_kua.Text.Laws.{text_eq_iff}
use wi_fi_roaming_with_i_kua.ClientIp.{split}
use wi_fi_roaming_with_i_kua.Config.{Config, is_admin_enabled, is_admin_email, has_folded, folded}
use wi_fi_roaming_with_i_kua.Cookies.{
  Codec, IsCodec, opened, AdminSession, Read, ReadError, good, bad, read_admin_cookie,
  write_admin_cookie, admin_document, ascii_document, admin_session_ttl,
}
use wi_fi_roaming_with_i_kua.Cookies.Authentic.{IsSigned, read_admin_cookie-IsSigned}
use wi_fi_roaming_with_i_kua.Cookies.RoundTrip.{read_admin_cookie-write_admin_cookie}
use wi_fi_roaming_with_i_kua.AdminGate.{
  WebRequest, UserInfo, admits, is_admin, is_same_origin, require_admin, signed_in,
  finish_admin_login,
}

-- What a request that is admitted has.
pub record IsAdmitted (c : Codec) (parse_url : Text → Option (Text × Text)) (now : ℕ) (cfg : Config)
    (r : WebRequest) (s : AdminSession) : Type 0 where
  pub enabled : is_admin_enabled cfg ≡ true
  pub from_portal :
      (is_same_origin parse_url cfg r ≡ true)
      ⊎ (r.http_method ≡ bytes "GET")
      ⊎ (r.http_method ≡ bytes "HEAD")
  pub signed :
      (value : Text) × (r.admin_cookie ≡ some value)
      × IsSigned c cfg.session_secret (split b'.' value)
  pub in_time : now ≤ s.exp

Read-cases :
    (r : Read AdminSession) → ((s : AdminSession) × (r ≡ good s)) ⊎ ((e : ReadError) × (r ≡ bad e))
Read-cases (good s) = inl (s, refl)
Read-cases (bad e) = inr (e, refl)

module _ (parse_url : Text → Option (Text × Text)) where
  admitted_cookie :
      (c : Codec) (now : ℕ) (cfg : Config) (r : WebRequest) (s : AdminSession)
      → require_admin parse_url c now cfg r ≡ admits s
      → read_admin_cookie c cfg.session_secret now r.admin_cookie ≡ good s
  unfolding require_admin
  admitted_cookie c now cfg r s e = ground (arith, e)

  admitted_origin :
      (c : Codec) (now : ℕ) (cfg : Config) (r : WebRequest) (s : AdminSession)
      → require_admin parse_url c now cfg r ≡ admits s
      → (is_admin_enabled cfg ≡ true)
        × ((is_same_origin parse_url cfg r ≡ true)
            ⊎ (r.http_method ≡ bytes "GET")
            ⊎ (r.http_method ≡ bytes "HEAD"))
  unfolding require_admin
  admitted_origin c now cfg r s e =
      let get = text_eq_iff r.http_method (bytes "GET") in
      let head = text_eq_iff r.http_method (bytes "HEAD") in
      (ground (arith, e), ground (arith, e, get, head))

  IsSigned-cookie :
      (c : Codec) (secret : Text) (now : ℕ) (cookie : Option Text) (s : AdminSession)
      → read_admin_cookie c secret now cookie ≡ good s
      → ((value : Text) × (cookie ≡ some value) × IsSigned c secret (split b'.' value))
        × (now ≤ s.exp)
  unfolding read_admin_cookie opened
  IsSigned-cookie c secret now none s e = absurd (ground (arith, e))
  IsSigned-cookie c secret now (some value) s e =
      let (signed, in_time) = read_admin_cookie-IsSigned c secret value now s e in
      ((value, refl, signed), in_time)

  -- A request is admitted only if the administration is enabled, the request reads or comes from a page
  -- of the portal, and it has a cookie that is signed with the portal's secret and has not expired.
  pub require_admin-IsAdmitted :
      (c : Codec) (now : ℕ) (cfg : Config) (r : WebRequest) (s : AdminSession)
      → require_admin parse_url c now cfg r ≡ admits s
      → IsAdmitted c parse_url now cfg r s
  require_admin-IsAdmitted c now cfg r s e =
      let (enabled, origin) = admitted_origin c now cfg r s e in
      let (signed, in_time) =
        IsSigned-cookie c cfg.session_secret now r.admin_cookie s
          (admitted_cookie c now cfg r s e) in
      record { enabled = enabled; from_portal = origin; signed = signed; in_time = in_time }

  some_email : (u : Text) (l : List Text) → has_folded u l ≡ true → ltb 0 (length l) ≡ true
  unfolding has_folded
  some_email u [] e = absurd (ground (arith, e))
  some_email u (a ∷ l) e = ground arith

  -- Whoever is an administrator has the administration enabled.
  is_admin-is_admin_enabled :
      (cfg : Config) (u : UserInfo) → is_admin cfg u ≡ true → is_admin_enabled cfg ≡ true
  unfolding is_admin is_admin_enabled is_admin_email
  is_admin-is_admin_enabled cfg u e = ground (arith, e, some_email (folded u.upn) cfg.admin_emails)

  signed_in_cookie :
      (c : Codec) (now : ℕ) (cfg : Config) (u : UserInfo) (cookie detail : Text)
      → finish_admin_login c now cfg u ≡ signed_in cookie detail
      → (is_admin cfg u ≡ true)
        × (cookie
            ≡ (write_admin_cookie c cfg.session_secret
                record { upn = u.upn; exp = now + admin_session_ttl }).0)
  unfolding finish_admin_login
  signed_in_cookie c now cfg u cookie detail e = (ground (arith, e), ground (arith, e))

  -- Whoever signs in as an administrator gets a cookie that admits each GET and each HEAD request
  -- that brings it, under the same configuration, for as long as an hour, if the texts of the cookie's
  -- document are ASCII and the packages that seal and read it do what they are documented to.
  pub require_admin-finish_admin_login :
      (c : Codec) (now later : ℕ) (cfg : Config) (u : UserInfo) (r : WebRequest)
      (cookie detail : Text)
      → IsCodec c
      → ascii_document (admin_document record { upn = u.upn; exp = now + admin_session_ttl }) ≡ true
      → finish_admin_login c now cfg u ≡ signed_in cookie detail
      → r.admin_cookie ≡ some cookie
      → (r.http_method ≡ bytes "GET") ⊎ (r.http_method ≡ bytes "HEAD")
      → later ≤ now + admin_session_ttl
      → require_admin parse_url c later cfg r
        ≡ admits record { upn = u.upn; exp = now + admin_session_ttl }
  unfolding require_admin
  require_admin-finish_admin_login c now later cfg u r cookie detail h ascii e has get le =
      let s : AdminSession = record { upn = u.upn; exp = now + admin_session_ttl } in
      let (admin, made) = signed_in_cookie c now cfg u cookie detail e in
      let enabled = is_admin-is_admin_enabled cfg u admin in
      let reads : read_admin_cookie c cfg.session_secret later r.admin_cookie ≡ good s =
        ap (read_admin_cookie c cfg.session_secret later) (has ∙ ap some made)
        ∙ read_admin_cookie-write_admin_cookie c cfg.session_secret later s h ascii
        ∙ ground (arith, le) in
      ground (
        arith,
        enabled,
        text_eq_iff r.http_method (bytes "GET"),
        text_eq_iff r.http_method (bytes "HEAD"),
        get,
        reads,
      )
