-- ===== src/Forms.antt =====
-- portal/main.go: the values of the administration's forms and queries. What the package time parses
-- is a parameter; times are in nanoseconds.
use wi_fi_roaming_with_i_kua.Prelude.{
  ℕ, zero, suc, ◌+◌, ◌*◌, ◌/◌, ◌≤◌, ◌<◌, ◌≡◌, Bool, false, Option, none, some, if◌then◌else◌, ltb,
  leb, length, take, arith,
}
use wi_fi_roaming_with_i_kua.Text.{Text, is_empty, trim_space}
use wi_fi_roaming_with_i_kua.Numbers.{ℤ, pos, negsuc, clamp, atoi}

-- parseIntDefault
unfoldable pub parse_int_default : Text → ℤ → ℤ
parse_int_default s fallback =
    let t = trim_space s in
    if is_empty t then fallback else elim (atoi t) [ none ↦ fallback | some n ↦ n ]

-- min
unfoldable pub capped : ℕ → ℕ → ℕ
capped limit n = if ltb limit n then limit else n

-- parseMaxUses
unfoldable pub parse_max_uses : Text → ℕ
parse_max_uses s = capped 1_000_000 (clamp (parse_int_default s (pos 0)))

-- capLen
unfoldable pub cap_len : Text → ℕ → Text
cap_len s n = if leb (length s) n then s else take n s

-- maxDurationMin
abbrev pub max_duration_min : ℕ
max_duration_min = 365 * 24 * 60

-- The default branch of parseDurationMin.
unfoldable pub hours_and_minutes : Text → Text → ℕ
hours_and_minutes duration_h duration_m =
    let h = capped (max_duration_min / 60) (clamp (parse_int_default duration_h (pos 18))) in
    let m = capped (60 * 24 * 7) (clamp (parse_int_default duration_m (pos 0))) in
    capped max_duration_min (h * 60 + m)

-- parseDurationMin
unfoldable pub parse_duration_min : Text → Text → Text → ℕ
parse_duration_min duration_min duration_h duration_m =
    let raw = trim_space duration_min in
    if is_empty raw then hours_and_minutes duration_h duration_m else elim (atoi raw) [
      | none ↦ hours_and_minutes duration_h duration_m
      | some mins ↦ capped max_duration_min (clamp mins)
    ]

-- The number of a query where it parses and is positive.
unfoldable pub positive : Option ℤ → ℕ → ℕ
positive none fallback = fallback
positive (some (negsuc n)) fallback = fallback
positive (some (pos zero)) fallback = fallback
positive (some (pos (suc n))) fallback = suc n

-- pageParams: the offset and the limit.
unfoldable pub page_params : Text → Text → ℕ × ℕ
page_params limit offset = (positive (atoi offset) 0, capped 500 (positive (atoi limit) 50))

-- parseExpiry: the expiry, none for no expiry.
pub data Expiry : Type 0 where
  sets : Option ℕ → Expiry
  bad_format : Expiry
  in_past : Expiry

unfoldable pub parse_expiry : (Text → Option ℕ) → (Text → Option ℕ) → ℕ → Text → Bool → Expiry
parse_expiry rfc3339 local now expires_at allow_past =
    let exp = trim_space expires_at in
    let check : ℕ → Expiry =
      (λ t. if allow_past then sets (some t) else if ltb t now then in_past else sets (some t)) in
    if is_empty exp then sets none else elim (rfc3339 exp) [
      | some t ↦ check t
      | none ↦ elim (local exp) [ none ↦ bad_format | some t ↦ check t ]
    ]

pub capped-le : (limit n : ℕ) → capped limit n ≤ limit
unfolding capped
capped-le limit n = ground arith

-- However the form is filled in, the length of a session is at most a year.
pub parse_duration_min-le :
    (duration_min duration_h duration_m : Text)
    → parse_duration_min duration_min duration_h duration_m ≤ max_duration_min
unfolding parse_duration_min hours_and_minutes capped
parse_duration_min-le duration_min duration_h duration_m = ground arith

positive-lt : (o : Option ℤ) (fallback : ℕ) → 0 < fallback → 0 < positive o fallback
unfolding positive
positive-lt none fallback h = h
positive-lt (some (negsuc n)) fallback h = h
positive-lt (some (pos zero)) fallback h = h
positive-lt (some (pos (suc n))) fallback h = omega arith

-- Whatever a browser asks for, a page has at least one row and at most 500.
pub page_params-limit :
    (limit offset : Text)
    → (0 < (page_params limit offset).1) × ((page_params limit offset).1 ≤ 500)
unfolding page_params capped
page_params-limit limit offset =
    let p = positive-lt (atoi limit) 50 (omega arith) in (ground (arith, p), ground (arith, p))

-- A new code cannot be made to expire in the past.
pub parse_expiry-future :
    (rfc3339 local : Text → Option ℕ) (now t : ℕ) (expires_at : Text)
    → parse_expiry rfc3339 local now expires_at false ≡ sets (some t)
    → now ≤ t
unfolding parse_expiry
parse_expiry-future rfc3339 local now t expires_at e = ground (arith, e)
