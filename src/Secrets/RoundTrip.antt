-- ===== src/Secrets/RoundTrip.antt =====
-- Decryption reads what encryption wrote, and what a display shows of a credential.
use wi_fi_roaming_with_i_kua.Prelude.{
  ◌≡◌, refl, ap, sym, Bool, true, false, if◌then◌else◌, not, [], ◌∷◌, ◌++◌, some, length, take,
  drop, length-append, arith, Bool-cases, ◌||◌, inl, inr,
}
use wi_fi_roaming_with_i_kua.Text.{Text, is_empty, has_prefix, trim_space, text_eq}
use wi_fi_roaming_with_i_kua.Text.Laws.{text_eq_refl}
use wi_fi_roaming_with_i_kua.Secrets.{
  Cipher, IsCipher, Keyring, is_encrypted, prefix, ok, enabled, seal, encrypt, open_sealed, decrypt,
  new_keyring,
}

pub drop-append : (s t : Text) → drop (length s) (s ++ t) ≡ t
drop-append [] t = refl
drop-append (a ∷ s) t = drop-append s t

pub take-append : (s t : Text) → take (length s) (s ++ t) ≡ s
take-append [] t = refl
take-append (a ∷ s) t = ap (λ r. a ∷ r) (take-append s t)

prefix-prefixed : (t : Text) → has_prefix (prefix ++ t) prefix ≡ true
unfolding has_prefix
prefix-prefixed t = refl

not_empty-prefixed : (t : Text) → is_empty (prefix ++ t) ≡ false
unfolding is_empty
not_empty-prefixed t = refl

-- The key of an enabled keyring is one AES takes.
pub key_ok-new_keyring :
    (c : Cipher) (material : Text)
    → IsCipher c
    → enabled (new_keyring c material) ≡ true
    → c.key_ok (new_keyring c material) ≡ true
unfolding enabled new_keyring is_empty
key_ok-new_keyring c material h e = elim (Bool-cases (is_empty (trim_space material))) [
  | inl b ↦ absurd (ground (arith, b, e))
  | inr b ↦
      ground
        (arith, b, h.key_32 (c.sha256 (trim_space material)) (h.sum_size (trim_space material)))
]

-- Opening what was sealed with a nonce of the right size gives the plain text back.
open_sealed-seal :
    (c : Cipher) (k nonce plain : Text)
    → IsCipher c
    → c.key_ok k ≡ true
    → length nonce ≡ c.nonce_size
    → open_sealed c k (nonce ++ c.gcm_seal k nonce plain) ≡ ok plain
unfolding open_sealed
open_sealed-seal c k nonce plain h good size = ground (
  arith,
  good,
  size,
  sym size,
  drop-append nonce (c.gcm_seal k nonce plain),
  take-append nonce (c.gcm_seal k nonce plain),
  length-append nonce (c.gcm_seal k nonce plain),
  h.open-seal k nonce plain,
)

-- What stands in the database for a value: the value where it is empty or there is no key, and a
-- text with the mark otherwise.
abbrev pub is_stored_right : Keyring → Text → Text → Bool
is_stored_right k plain stored =
    if is_empty plain || not (enabled k) then text_eq stored plain else is_encrypted stored

-- A value that is stored as it is.
plain_kept :
    (c : Cipher) (k nonce plain : Text)
    → has_prefix plain prefix ≡ false
    → (is_empty plain || not (enabled k)) ≡ true
    → (stored : Text) × (encrypt c (some nonce) k plain ≡ ok stored)
      × (decrypt c k stored ≡ ok plain)
      × (is_stored_right k plain stored ≡ true)
unfolding encrypt decrypt
plain_kept c k nonce plain no_mark e = (
  plain,
  ground (arith, no_mark, e),
  ground (arith, no_mark),
  ground (arith, e, text_eq_refl plain),
)

sealed_opened :
    (c : Cipher) (k nonce plain : Text)
    → IsCipher c
    → length nonce ≡ c.nonce_size
    → has_prefix plain prefix ≡ false
    → is_empty plain ≡ false
    → enabled k ≡ true
    → c.key_ok k ≡ true
    → (stored : Text) × (encrypt c (some nonce) k plain ≡ ok stored)
      × (decrypt c k stored ≡ ok plain)
      × (is_stored_right k plain stored ≡ true)
unfolding encrypt seal decrypt is_encrypted
sealed_opened c k nonce plain h size no_mark e on good =
    let body = nonce ++ c.gcm_seal k nonce plain in
    let stored = prefix ++ c.encode64 body in
    (
      stored,
      ground (arith, no_mark, e, on, good),
      ground (
        arith,
        on,
        prefix-prefixed (c.encode64 body),
        not_empty-prefixed (c.encode64 body),
        h.decode-encode body,
        open_sealed-seal c k nonce plain h good size,
      ),
      ground (arith, e, on, prefix-prefixed (c.encode64 body)),
    )

-- A value that a keyring of the portal encrypts, with a nonce of the size that is drawn, decrypts to
-- itself, provided it does not begin with the mark of an encrypted value. An empty value, and every
-- value where there is no key, is stored as it is; any other value is stored with the mark.
pub decrypt-encrypt :
    (c : Cipher) (material nonce plain : Text)
    → IsCipher c
    → length nonce ≡ c.nonce_size
    → has_prefix plain prefix ≡ false
    → (stored : Text) × (encrypt c (some nonce) (new_keyring c material) plain ≡ ok stored)
      × (decrypt c (new_keyring c material) stored ≡ ok plain)
      × (is_stored_right (new_keyring c material) plain stored ≡ true)
decrypt-encrypt c material nonce plain h size no_mark =
    let k = new_keyring c material in
    elim (Bool-cases (is_empty plain)) [
      | inl e ↦ plain_kept c k nonce plain no_mark (ground (arith, e))
      | inr e ↦ elim (Bool-cases (enabled k)) [
        | inl on ↦
            sealed_opened c k nonce plain h size no_mark e on (key_ok-new_keyring c material h on)
        | inr off ↦ plain_kept c k nonce plain no_mark (ground (arith, e, off))
      ]
    ]
