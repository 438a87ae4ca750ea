-- ===== src/Cookies/RoundTrip.antt =====
-- A cookie that was written reads back until it expires.
use mathlib.Core.List.{reverse-cons, append_assoc, append-nil}
use wi_fi_roaming_with_i_kua.Prelude.{
  ℕ, ◌≡◌, refl, sym, ap, ◌∙◌, true, [], ◌∷◌, ◌++◌, reverse, some, ltb, if◌then◌else◌, arith,
}
use wi_fi_roaming_with_i_kua.Text.{Text, bytes, text_eq, is_empty}
use wi_fi_roaming_with_i_kua.Text.Laws.{text_eq_refl}
use wi_fi_roaming_with_i_kua.Maps.{lookup}
use wi_fi_roaming_with_i_kua.ClientIp.{split, split_from}
use wi_fi_roaming_with_i_kua.Cookies.{
  Document, Session, AdminSession, Codec, IsCodec, has_no_dot, ascii_document, omit_empty,
  session_document, admin_document, text_field, number_field, to_session, to_admin_session, good,
  bad, expired, sealed, unsealed, opened, write_session_cookie, write_admin_cookie,
  read_session_cookie, read_admin_cookie,
}

reverse_shift : (b : ℕ) (part s : Text) → reverse (b ∷ part) ++ s ≡ reverse part ++ (b ∷ s)
reverse_shift b part s = rw (reverse-cons b part, append_assoc (reverse part) (b ∷ []) s) refl

split_from-plain :
    (part s : Text) → has_no_dot s ≡ true → split_from b'.' part s ≡ (reverse part ++ s) ∷ []
unfolding split_from has_no_dot
split_from-plain part [] h = ap (λ l. l ∷ []) (sym (append-nil (reverse part)))
split_from-plain part (b ∷ s) h =
    ground (arith, h, split_from-plain (b ∷ part) s, reverse_shift b part s)

split_from-two :
    (part s t : Text)
    → has_no_dot s ≡ true
    → has_no_dot t ≡ true
    → split_from b'.' part (s ++ (b'.' ∷ t)) ≡ (reverse part ++ s) ∷ t ∷ []
unfolding split_from has_no_dot
split_from-two part [] t h k = ground (arith, split_from-plain [] t k, append-nil (reverse part))
split_from-two part (b ∷ s) t h k =
    ground (arith, h, split_from-two (b ∷ part) s t, k, reverse_shift b part s)

unsealed_two :
    (c : Codec) (secret : Text) (d : Document)
    → IsCodec c
    → ascii_document d ≡ true
    → unsealed c secret (c.encode64 (c.marshal d) ∷ c.sign secret (c.encode64 (c.marshal d)) ∷ [])
      ≡ good d
unfolding unsealed
unsealed_two c secret d h ascii =
    let payload = c.encode64 (c.marshal d) in
    ground (
      arith,
      text_eq_refl (c.sign secret payload),
      h.decode64-encode64 (c.marshal d),
      h.unmarshal-marshal d ascii,
    )

pub opened-sealed :
    (c : Codec) (secret : Text) (d : Document)
    → IsCodec c
    → ascii_document d ≡ true
    → opened c secret (some (sealed c secret d)) ≡ good d
unfolding opened sealed split
opened-sealed c secret d h ascii =
    let payload = c.encode64 (c.marshal d) in
    ap (unsealed c secret) (
      split_from-two [] payload (c.sign secret payload) (h.encode64_plain (c.marshal d))
        (h.sign_plain secret payload))
    ∙ unsealed_two c secret d h ascii

is_empty_nil : (t : Text) → is_empty t ≡ true → t ≡ []
unfolding is_empty
is_empty_nil [] h = refl
is_empty_nil (b ∷ t) h = absurd (ground (arith, h))

user_ip_read : (s : Session) → text_field (bytes "user_ip") (session_document s) ≡ some s.user_ip
unfolding session_document omit_empty text_field lookup text_eq
user_ip_read s = ground (arith, is_empty_nil s.user_ip)

mac_read : (s : Session) → text_field (bytes "mac") (session_document s) ≡ some s.mac
unfolding session_document omit_empty text_field lookup text_eq
mac_read s = ground (arith, is_empty_nil s.mac)

state_read : (s : Session) → text_field (bytes "state") (session_document s) ≡ some s.state
unfolding session_document omit_empty text_field lookup text_eq
state_read s = ground arith

nonce_read : (s : Session) → text_field (bytes "nonce") (session_document s) ≡ some s.nonce
unfolding session_document omit_empty text_field lookup text_eq
nonce_read s = ground arith

lang_read : (s : Session) → text_field (bytes "lang") (session_document s) ≡ some s.lang
unfolding session_document omit_empty text_field lookup text_eq
lang_read s = ground (arith, is_empty_nil s.lang)

email_read : (s : Session) → text_field (bytes "email") (session_document s) ≡ some s.email
unfolding session_document omit_empty text_field lookup text_eq
email_read s = ground (arith, is_empty_nil s.email)

purpose_read : (s : Session) → text_field (bytes "purpose") (session_document s) ≡ some s.purpose
unfolding session_document omit_empty text_field lookup text_eq
purpose_read s = ground (arith, is_empty_nil s.purpose)

exp_read : (s : Session) → number_field (bytes "exp") (session_document s) ≡ some s.exp
unfolding session_document omit_empty number_field lookup text_eq
exp_read s = ground arith

to_session-document : (s : Session) → to_session (session_document s) ≡ some s
unfolding to_session
to_session-document s = ground (
  arith,
  user_ip_read s,
  mac_read s,
  state_read s,
  nonce_read s,
  exp_read s,
  lang_read s,
  email_read s,
  purpose_read s,
)

-- A session cookie that was written reads back as the session until it expires, and as expired after
-- that, where the texts of the session are ASCII.
pub read_session_cookie-write_session_cookie :
    (c : Codec) (secret : Text) (now : ℕ) (s : Session)
    → IsCodec c
    → ascii_document (session_document s) ≡ true
    → read_session_cookie c secret now (some (write_session_cookie c secret s).0)
      ≡ (if ltb s.exp now then bad expired else good s)
unfolding read_session_cookie write_session_cookie
read_session_cookie-write_session_cookie c secret now s h ascii =
    ground (arith, opened-sealed c secret (session_document s) h ascii, to_session-document s)

to_admin_session-document : (s : AdminSession) → to_admin_session (admin_document s) ≡ some s
unfolding to_admin_session admin_document text_field number_field lookup text_eq
to_admin_session-document s = ground arith

-- So does the cookie of an administrator.
pub read_admin_cookie-write_admin_cookie :
    (c : Codec) (secret : Text) (now : ℕ) (s : AdminSession)
    → IsCodec c
    → ascii_document (admin_document s) ≡ true
    → read_admin_cookie c secret now (some (write_admin_cookie c secret s).0)
      ≡ (if ltb s.exp now then bad expired else good s)
unfolding read_admin_cookie write_admin_cookie
read_admin_cookie-write_admin_cookie c secret now s h ascii =
    ground (arith, opened-sealed c secret (admin_document s) h ascii, to_admin_session-document s)

no_upn : (s : Session) → text_field (bytes "upn") (session_document s) ≡ some []
unfolding session_document omit_empty text_field lookup text_eq
no_upn s = ground arith

to_admin_session-session :
    (s : Session) → to_admin_session (session_document s) ≡ some record { upn = []; exp = s.exp }
unfolding to_admin_session
to_admin_session-session s = ground (arith, no_upn s, exp_read s)

-- The cookie of a session, which every visitor of the portal gets, read as the cookie of an
-- administrator: until it expires it is accepted, with an empty name.
pub read_admin_cookie-write_session_cookie :
    (c : Codec) (secret : Text) (now : ℕ) (s : Session)
    → IsCodec c
    → ascii_document (session_document s) ≡ true
    → read_admin_cookie c secret now (some (write_session_cookie c secret s).0)
      ≡ (if ltb s.exp now then bad expired else good record { upn = []; exp = s.exp })
unfolding read_admin_cookie write_session_cookie
read_admin_cookie-write_session_cookie c secret now s h ascii =
    ground (arith, opened-sealed c secret (session_document s) h ascii, to_admin_session-session s)
