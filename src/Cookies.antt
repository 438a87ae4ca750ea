-- ===== src/Cookies.antt =====
-- portal/session.go: the two signed cookies. HMAC-SHA256 in hexadecimal, base64 and JSON are a
-- parameter, `Codec`. Times are in seconds. Drawing the state and the nonce of a session, which may
-- fail, is an argument; what a cookie says besides its value is left out but its age.
pub mod RoundTrip
pub mod Authentic
use wi_fi_roaming_with_i_kua.Prelude.{
  ℕ, ◌≡◌, ◌+◌, ◌*◌, Bool, true, false, ◌&&◌, not, List, [], ◌∷◌, ◌++◌, Option, none, some, ◌>>=◌,
  ltb, ◌==◌, if◌then◌else◌,
}
use wi_fi_roaming_with_i_kua.Text.{Text, bytes, text_eq, is_empty}
use wi_fi_roaming_with_i_kua.Maps.{Map, lookup}
use wi_fi_roaming_with_i_kua.ClientIp.{split}

-- The values of a JSON object that the portal writes.
pub data Value : Type 0 where
  text : Text → Value
  number : ℕ → Value

abbrev pub Document : Type 0
Document = Map Value

-- Session
pub record Session : Type 0 where
  pub user_ip : Text
  pub mac : Text
  pub state : Text
  pub nonce : Text
  pub exp : ℕ
  pub lang : Text
  pub email : Text
  pub purpose : Text

-- AdminSession
pub record AdminSession : Type 0 where
  pub upn : Text
  pub exp : ℕ

-- The packages that the cookies are made with.
pub record Codec : Type 0 where
  pub sign : Text → Text → Text
  pub encode64 : Text → Text
  pub decode64 : Text → Option Text
  pub marshal : Document → Text
  pub unmarshal : Text → Option Document

-- sessionTTL and adminSessionTTL
abbrev pub session_ttl : ℕ
session_ttl = 15 * 60

abbrev pub admin_session_ttl : ℕ
admin_session_ttl = 60 * 60

-- newSession: the drawn state and nonce are none where rand.Read fails.
unfoldable pub new_session : ℕ → Option Text → Option Text → Text → Text → Text → Option Session
new_session now none drawn user_ip mac lang = none
new_session now (some state) none user_ip mac lang = none
new_session now (some state) (some drawn) user_ip mac lang = some record {
  user_ip = user_ip;
  mac = mac;
  state = state;
  nonce = drawn;
  exp = now + session_ttl;
  lang = lang;
  email = [];
  purpose = bytes "wifi";
}

-- newAdminPreloginSession
unfoldable pub new_admin_prelogin_session : ℕ → Option Text → Option Text → Text → Option Session
new_admin_prelogin_session now none drawn lang = none
new_admin_prelogin_session now (some state) none lang = none
new_admin_prelogin_session now (some state) (some drawn) lang = some record {
  user_ip = [];
  mac = [];
  state = state;
  nonce = drawn;
  exp = now + session_ttl;
  lang = lang;
  email = [];
  purpose = bytes "admin";
}

-- A field that is left out where it is empty.
unfoldable pub omit_empty : Text → Text → Document → Document
omit_empty name value rest = if is_empty value then rest else (name, text value) ∷ rest

unfoldable pub session_document : Session → Document
session_document s = omit_empty (bytes "user_ip") s.user_ip (
    omit_empty (bytes "mac") s.mac (
      (bytes "state", text s.state)
      ∷ (bytes "nonce", text s.nonce)
      ∷ (bytes "exp", number s.exp)
      ∷ omit_empty (bytes "lang") s.lang
          (omit_empty (bytes "email") s.email (omit_empty (bytes "purpose") s.purpose []))))

unfoldable pub admin_document : AdminSession → Document
admin_document s = (bytes "upn", text s.upn) ∷ (bytes "exp", number s.exp) ∷ []

-- The field of a struct: its zero value where it is missing, none where its type is another.
unfoldable pub text_field : Text → Document → Option Text
text_field name d = elim (lookup name d) [
  | none ↦ some []
  | some v ↦ elim v [ text t ↦ some t | number n ↦ none ]
]

unfoldable pub number_field : Text → Document → Option ℕ
number_field name d = elim (lookup name d) [
  | none ↦ some 0
  | some v ↦ elim v [ text t ↦ none | number n ↦ some n ]
]

-- json.Unmarshal into a Session; other fields are ignored.
unfoldable pub to_session : Document → Option Session
to_session d = do
  user_ip ← text_field (bytes "user_ip") d
  mac ← text_field (bytes "mac") d
  state ← text_field (bytes "state") d
  nonce ← text_field (bytes "nonce") d
  exp ← number_field (bytes "exp") d
  lang ← text_field (bytes "lang") d
  email ← text_field (bytes "email") d
  purpose ← text_field (bytes "purpose") d
  some record {
    user_ip = user_ip;
    mac = mac;
    state = state;
    nonce = nonce;
    exp = exp;
    lang = lang;
    email = email;
    purpose = purpose;
  }

-- json.Unmarshal into an AdminSession; other fields are ignored.
unfoldable pub to_admin_session : Document → Option AdminSession
to_admin_session d = do
  upn ← text_field (bytes "upn") d
  exp ← number_field (bytes "exp") d
  some record { upn = upn; exp = exp }

-- The errors of a read.
pub data ReadError : Type 0 where
  no_cookie : ReadError
  malformed : ReadError
  bad_signature : ReadError
  bad_payload : ReadError
  bad_json : ReadError
  expired : ReadError

pub data Read {ℓ} (A : Type ℓ) : Type ℓ where
  good : A → Read A
  bad : ReadError → Read A

-- A text signed: payload, dot, signature.
unfoldable pub sealed : Codec → Text → Document → Text
sealed c secret d =
    let payload = c.encode64 (c.marshal d) in payload ++ (b'.' ∷ c.sign secret payload)

unfoldable pub unsealed : Codec → Text → List Text → Read Document
unsealed c secret (payload ∷ sig ∷ []) =
    if text_eq (c.sign secret payload) sig
    then elim (c.decode64 payload) [
      | none ↦ bad bad_payload
      | some body ↦ elim (c.unmarshal body) [ none ↦ bad bad_json | some d ↦ good d ]
    ]
    else bad bad_signature
unsealed c secret _ = bad malformed

-- The value of a cookie up to its fields.
unfoldable pub opened : Codec → Text → Option Text → Read Document
opened c secret none = bad no_cookie
opened c secret (some value) = unsealed c secret (split b'.' value)

-- writeSessionCookie and writeAdminCookie: the value, and the age.
unfoldable pub write_session_cookie : Codec → Text → Session → Text × ℕ
write_session_cookie c secret s = (sealed c secret (session_document s), session_ttl)

unfoldable pub write_admin_cookie : Codec → Text → AdminSession → Text × ℕ
write_admin_cookie c secret s = (sealed c secret (admin_document s), admin_session_ttl)

-- readSessionCookie
unfoldable pub read_session_cookie : Codec → Text → ℕ → Option Text → Read Session
read_session_cookie c secret now cookie = elim (opened c secret cookie) [
  | bad e ↦ bad e
  | good d ↦ elim (to_session d) [
    | none ↦ bad bad_json
    | some s ↦ if ltb s.exp now then bad expired else good s
  ]
]

-- readAdminCookie
unfoldable pub read_admin_cookie : Codec → Text → ℕ → Option Text → Read AdminSession
read_admin_cookie c secret now cookie = elim (opened c secret cookie) [
  | bad e ↦ bad e
  | good d ↦ elim (to_admin_session d) [
    | none ↦ bad bad_json
    | some s ↦ if ltb s.exp now then bad expired else good s
  ]
]

-- What is documented of the packages: a signature in hexadecimal and base64 for URLs have no dot, and
-- what is encoded decodes to itself, for JSON where its texts are ASCII.
unfoldable pub has_no_dot : Text → Bool
has_no_dot [] = true
has_no_dot (b ∷ s) = not (b == b'.') && has_no_dot s

unfoldable pub is_ascii : Text → Bool
is_ascii [] = true
is_ascii (b ∷ s) = ltb b 128 && is_ascii s

unfoldable pub ascii_document : Document → Bool
ascii_document [] = true
ascii_document ((name, number n) ∷ d) = is_ascii name && ascii_document d
ascii_document ((name, text t) ∷ d) = is_ascii name && is_ascii t && ascii_document d

pub record IsCodec (c : Codec) : Type 0 where
  pub sign_plain : (secret s : Text) → has_no_dot (c.sign secret s) ≡ true
  pub encode64_plain : (s : Text) → has_no_dot (c.encode64 s) ≡ true
  pub decode64-encode64 : (s : Text) → c.decode64 (c.encode64 s) ≡ some s
  pub unmarshal-marshal :
      (d : Document) → ascii_document d ≡ true → c.unmarshal (c.marshal d) ≡ some d
