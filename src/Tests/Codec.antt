-- ===== src/Tests/Codec.antt =====
-- An encoding for the cookies that does not hide anything.
use wi_fi_roaming_with_i_kua.Prelude.{
  ℕ, zero, suc, ◌+◌, ◌-◌, ◌≡◌, refl, ap, true, [], ◌∷◌, ◌++◌, Option, none, some, length, take,
  drop, map, arith,
}
use wi_fi_roaming_with_i_kua.Text.{Text, bytes}
use wi_fi_roaming_with_i_kua.Secrets.RoundTrip.{drop-append, take-append}
use wi_fi_roaming_with_i_kua.Cookies.{Value, text, number, Document, Codec, IsCodec, has_no_dot}

shifted : Text → Text
shifted s = map (λ b. b + 47) s

unshifted : Text → Text
unshifted s = map (λ b. b - 47) s

unshifted-shifted : (s : Text) → unshifted (shifted s) ≡ s
unfolding unshifted shifted
unshifted-shifted [] = refl
unshifted-shifted (b ∷ s) = ground (arith, unshifted-shifted s)

has_no_dot-shifted : (s : Text) → has_no_dot (shifted s) ≡ true
unfolding has_no_dot shifted
has_no_dot-shifted [] = refl
has_no_dot-shifted (b ∷ s) = ground (arith, has_no_dot-shifted s)

value_body : Value → Text → Text
value_body (text t) rest = 0 ∷ length t ∷ (t ++ rest)
value_body (number n) rest = 1 ∷ n ∷ rest

body : Document → Text
body [] = []
body ((name, v) ∷ d) = length name ∷ (name ++ value_body v (body d))

-- The value at the front of a text, and what follows.
front_value : Text → Option (Value × Text)
front_value (zero ∷ k ∷ rest) = some (text (take k rest), drop k rest)
front_value (suc zero ∷ n ∷ rest) = some (number n, rest)
front_value _ = none

entries : ℕ → Text → Option Document
entries zero s = some []
entries (suc n) [] = none
entries (suc n) (k ∷ s) = elim (front_value (drop k s)) [
  | none ↦ none
  | some v ↦ elim (entries n v.1) [ none ↦ none | some d ↦ some ((take k s, v.0) ∷ d) ]
]

front_value-body : (v : Value) (rest : Text) → front_value (value_body v rest) ≡ some (v, rest)
unfolding front_value value_body
front_value-body (text t) rest = ground (arith, take-append t rest, drop-append t rest)
front_value-body (number n) rest = refl

entries-body : (d : Document) → entries (length d) (body d) ≡ some d
unfolding entries body
entries-body [] = refl
entries-body ((name, v) ∷ d) = ground (
  arith,
  entries-body d,
  front_value-body v (body d),
  take-append name (value_body v (body d)),
  drop-append name (value_body v (body d)),
)

unmarshal : Text → Option Document
unmarshal [] = none
unmarshal (n ∷ s) = entries n s

pub plain : Codec
plain = record {
  sign = λ secret s. bytes "ok";
  encode64 = shifted;
  decode64 = λ s. some (unshifted s);
  marshal = λ d. length d ∷ body d;
  unmarshal = unmarshal;
}

pub plain-IsCodec : IsCodec plain
unfolding plain unmarshal has_no_dot
plain-IsCodec = record {
  sign_plain = λ secret s. refl;
  encode64_plain = has_no_dot-shifted;
  decode64-encode64 = λ s. ap some (unshifted-shifted s);
  unmarshal-marshal = λ d e. entries-body d;
}
