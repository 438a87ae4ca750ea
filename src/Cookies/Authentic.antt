-- ===== src/Cookies/Authentic.antt =====
-- What a cookie that is accepted guarantees.
use wi_fi_roaming_with_i_kua.Prelude.{ℕ, ◌≤◌, ◌≡◌, refl, ◌⊎◌, inl, inr, List, [], ◌∷◌, some, arith}
use wi_fi_roaming_with_i_kua.Text.{Text}
use wi_fi_roaming_with_i_kua.Text.Laws.{text_eq_iff}
use wi_fi_roaming_with_i_kua.ClientIp.{split}
use wi_fi_roaming_with_i_kua.Cookies.{
  Document, Session, AdminSession, Codec, Read, ReadError, good, bad, unsealed, opened,
  read_session_cookie, read_admin_cookie,
}

-- A payload and its signature, in two parts.
pub IsSigned : Codec → Text → List Text → Type 0
IsSigned c secret parts = (payload : Text) × (parts ≡ payload ∷ c.sign secret payload ∷ [])

unsealed-IsSigned :
    (c : Codec) (secret : Text) (parts : List Text) (d : Document)
    → unsealed c secret parts ≡ good d
    → IsSigned c secret parts
unfolding unsealed IsSigned
unsealed-IsSigned c secret [] d e = absurd (ground (arith, e))
unsealed-IsSigned c secret (p ∷ []) d e = absurd (ground (arith, e))
unsealed-IsSigned c secret (p ∷ sig ∷ []) d e =
    (p, ground (arith, e, text_eq_iff (c.sign secret p) sig))
unsealed-IsSigned c secret (p ∷ sig ∷ q ∷ parts) d e = absurd (ground (arith, e))

Read-cases : (r : Read Document) → ((d : Document) × (r ≡ good d)) ⊎ ((e : ReadError) × (r ≡ bad e))
Read-cases (good d) = inl (d, refl)
Read-cases (bad e) = inr (e, refl)

-- A session cookie that is accepted is a text and its signature under the portal's secret, and has not
-- expired.
pub read_session_cookie-IsSigned :
    (c : Codec) (secret value : Text) (now : ℕ) (s : Session)
    → read_session_cookie c secret now (some value) ≡ good s
    → IsSigned c secret (split b'.' value) × (now ≤ s.exp)
unfolding read_session_cookie opened
read_session_cookie-IsSigned c secret value now s e =
    elim (Read-cases (unsealed c secret (split b'.' value))) [
      | inl (d, u) ↦ (unsealed-IsSigned c secret (split b'.' value) d u, ground (arith, e, u))
      | inr (f, u) ↦ absurd (ground (arith, e, u))
    ]

-- The cookie of an administrator likewise.
pub read_admin_cookie-IsSigned :
    (c : Codec) (secret value : Text) (now : ℕ) (s : AdminSession)
    → read_admin_cookie c secret now (some value) ≡ good s
    → IsSigned c secret (split b'.' value) × (now ≤ s.exp)
unfolding read_admin_cookie opened
read_admin_cookie-IsSigned c secret value now s e =
    elim (Read-cases (unsealed c secret (split b'.' value))) [
      | inl (d, u) ↦ (unsealed-IsSigned c secret (split b'.' value) d u, ground (arith, e, u))
      | inr (f, u) ↦ absurd (ground (arith, e, u))
    ]
