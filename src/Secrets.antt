-- ===== src/Secrets.antt =====
-- portal/internal/secret/secret.go: credentials encrypted at rest. AES-GCM, SHA-256 and base64 are a
-- parameter, `Cipher`; the bytes drawn for a nonce are an argument, `none` where the draw fails.
pub mod RoundTrip
use wi_fi_roaming_with_i_kua.Prelude.{
  ℕ, ◌≡◌, ◌≢◌, Bool, true, false, ◌||◌, not, List, [], ◌∷◌, ◌++◌, Option, none, some, length, drop,
  take, ltb, if◌then◌else◌, ◌-◌,
}
use wi_fi_roaming_with_i_kua.Text.{Text, bytes, is_empty, has_prefix, trim_space}

-- The packages the keyring calls. `key_ok` is whether aes.NewCipher takes a key, `encrypt` and
-- `decrypt` are Seal and Open with a key and a nonce, without what Seal appends to.
pub record Cipher : Type 0 where
  pub sha256 : Text → Text
  pub key_ok : Text → Bool
  pub nonce_size : ℕ
  pub gcm_seal : Text → Text → Text → Text
  pub gcm_open : Text → Text → Text → Option Text
  pub encode64 : Text → Text
  pub decode64 : Text → Option Text

-- What is documented of them: a sum is 32 bytes, which is a key AES takes, Open reads what Seal made
-- with the key and the nonce, and decoding reads what encoding wrote.
pub record IsCipher (c : Cipher) : Type 0 where
  pub sum_size : (m : Text) → length (c.sha256 m) ≡ 32
  pub key_32 : (k : Text) → length k ≡ 32 → c.key_ok k ≡ true
  pub open-seal : (k n m : Text) → c.gcm_open k n (c.gcm_seal k n m) ≡ some m
  pub decode-encode : (m : Text) → c.decode64 (c.encode64 m) ≡ some m

-- Prefix
abbrev pub prefix : Text
prefix = bytes "enc:v1:"

pub data Failure : Type 0 where
  no_key : Failure
  corrupt : Failure
  bad_cipher : Failure
  no_nonce : Failure

pub data Result {ℓ} (A : Type ℓ) : Type ℓ where
  ok : A → Result A
  failed : Failure → Result A

-- Keyring: the key, empty where there is none.
abbrev pub Keyring : Type 0
Keyring = Text

-- NewKeyring
unfoldable pub new_keyring : Cipher → Text → Keyring
new_keyring c material = let m = trim_space material in if is_empty m then [] else c.sha256 m

-- Enabled
unfoldable pub enabled : Keyring → Bool
enabled k = not (is_empty k)

-- IsEncrypted
unfoldable pub is_encrypted : Text → Bool
is_encrypted stored = has_prefix stored prefix

unfoldable pub seal : Cipher → Keyring → Text → Text → Result Text
seal c k nonce plain =
    if c.key_ok k
    then ok (prefix ++ c.encode64 (nonce ++ c.gcm_seal k nonce plain))
    else failed bad_cipher

-- Encrypt
unfoldable pub encrypt : Cipher → Option Text → Keyring → Text → Result Text
encrypt c draw k plain =
    if is_empty plain || has_prefix plain prefix
    then ok plain
    else if enabled k
    then elim draw [
      | none ↦ if c.key_ok k then failed no_nonce else failed bad_cipher
      | some nonce ↦ seal c k nonce plain
    ]
    else ok plain

unfoldable pub open_sealed : Cipher → Keyring → Text → Result Text
open_sealed c k raw =
    if c.key_ok k
    then if ltb (length raw) c.nonce_size
      then failed corrupt
      else elim (c.gcm_open k (take c.nonce_size raw) (drop c.nonce_size raw)) [
        | none ↦ failed corrupt
        | some plain ↦ ok plain
      ]
    else failed bad_cipher

-- Decrypt
unfoldable pub decrypt : Cipher → Keyring → Text → Result Text
decrypt c k stored =
    if is_empty stored || not (has_prefix stored prefix)
    then ok stored
    else if enabled k
    then elim (c.decode64 (drop (length prefix) stored)) [
      | none ↦ failed corrupt
      | some raw ↦ open_sealed c k raw
    ]
    else failed no_key

-- Mask
unfoldable pub mask : Text → Text
mask plain =
    if is_empty plain
    then []
    else if ltb (length plain) 8
    then bytes "********"
    else bytes "********" ++ drop (length plain - 4) plain
