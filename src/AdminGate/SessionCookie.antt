-- ===== src/AdminGate/SessionCookie.antt =====
-- The cookie of a visitor's session, sent under the name of the administrator's.
use wi_fi_roaming_with_i_kua.Prelude.{
  ℕ, ◌+◌, ◌≤◌, ◌≡◌, ap, ◌∙◌, true, [], Option, none, some, arith,
}
use wi_fi_roaming_with_i_kua.Text.{Text, bytes}
use wi_fi_roaming_with_i_kua.Text.Laws.{text_eq_iff}
use wi_fi_roaming_with_i_kua.Config.{Config, is_admin_enabled}
use wi_fi_roaming_with_i_kua.Cookies.{
  Codec, IsCodec, Session, good, read_admin_cookie, write_session_cookie, new_session,
  session_document, ascii_document, session_ttl,
}
use wi_fi_roaming_with_i_kua.Cookies.RoundTrip.{read_admin_cookie-write_session_cookie}
use wi_fi_roaming_with_i_kua.AdminGate.{WebRequest, admits, require_admin}

session_exp :
    (now : ℕ) (state drawn : Option Text) (user_ip mac lang : Text) (s : Session)
    → new_session now state drawn user_ip mac lang ≡ some s
    → s.exp ≡ now + session_ttl
unfolding new_session
session_exp now none drawn user_ip mac lang s e = absurd (ground (arith, e))
session_exp now (some state) none user_ip mac lang s e = absurd (ground (arith, e))
session_exp now (some state) (some drawn) user_ip mac lang s e = ground (arith, e)

-- A visitor whose device the router sends to the portal gets the cookie of a new session. Sent back
-- under the name of the administrator's cookie it admits the visitor to the administration, under an
-- empty name, until the session expires: the two cookies are signed alike.
pub require_admin-new_session :
    (parse_url : Text → Option (Text × Text)) (c : Codec) (now later : ℕ) (cfg : Config)
    (state drawn : Option Text) (user_ip mac lang : Text) (s : Session) (r : WebRequest)
    → IsCodec c
    → new_session now state drawn user_ip mac lang ≡ some s
    → ascii_document (session_document s) ≡ true
    → is_admin_enabled cfg ≡ true
    → r.http_method ≡ bytes "GET"
    → r.admin_cookie ≡ some (write_session_cookie c cfg.session_secret s).0
    → later ≤ now + session_ttl
    → require_admin parse_url c later cfg r ≡ admits record { upn = []; exp = now + session_ttl }
unfolding require_admin
require_admin-new_session parse_url c now later cfg state drawn user_ip mac lang s r h e ascii on
      get has le =
    let reads : read_admin_cookie c cfg.session_secret later r.admin_cookie
        ≡ good record { upn = []; exp = now + session_ttl } =
      ap (read_admin_cookie c cfg.session_secret later) has
      ∙ read_admin_cookie-write_session_cookie c cfg.session_secret later s h ascii
      ∙ ground (arith, le, session_exp now state drawn user_ip mac lang s e) in
    ground (arith, on, text_eq_iff r.http_method (bytes "GET"), get, reads)
