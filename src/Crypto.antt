-- ===== src/Crypto.antt =====
-- src/crypto: what the program calls of libsodium, which is a parameter, and the functions of
-- crypto.cpp around it. An output buffer is its size, and the result is what is written there.
use zet.Prelude.{
  ℕ, ◌+◌, ◌-◌, ◌≡◌, Bool, List, [], Option, none, some, ok, err, if◌then◌else◌, ltb, not, ◌==◌,
  length,
}
use zet.Core.Error.{
  EProtoError, ProtoResult, malformed_field, buffer_too_small, authentication_failed,
}
use zet.Wire.Limits.{tag_size, key_size}

-- crypto::NONCE_SIZE, and crypto::MAC_SIZE in zet.Wire.Limits.
abbrev pub nonce_size : ℕ
nonce_size = 24

-- The functions of libsodium. `none` is a return code other than 0. `hash` is BLAKE2b, whose key
-- is empty where the source passes none.
pub record Sodium : Type 0 where
  pub encrypt : List ℕ → List ℕ → List ℕ → List ℕ → Option (List ℕ)
  pub decrypt : List ℕ → List ℕ → List ℕ → List ℕ → Option (List ℕ)
  pub kdf : ℕ → ℕ → List ℕ → List ℕ → List ℕ
  pub hash : ℕ → List ℕ → List ℕ → List ℕ
  pub auth : List ℕ → List ℕ → List ℕ
  pub verify : List ℕ → List ℕ → List ℕ → Bool

-- What its documentation says of the authenticated encryption: the tag is appended, and what was
-- encrypted is decrypted under the same associated data, nonce and key; and of the key derivation:
-- it fills its output.
pub record IsSodium (c : Sodium) : Type 0 where
  pub encrypted :
      (plaintext associated nonce key : List ℕ)
      → (sealed : List ℕ) × (c.encrypt plaintext associated nonce key ≡ some sealed)
        × (length sealed ≡ length plaintext + tag_size)
        × (c.decrypt sealed associated nonce key ≡ some plaintext)
  pub derived_size :
      (width subkey_id : ℕ) (context master : List ℕ)
      → length (c.kdf width subkey_id context master) ≡ width

abbrev pub result_or : EProtoError → Option (List ℕ) → ProtoResult (List ℕ)
result_or e none = err e
result_or e (some bytes) = ok bytes

unfoldable pub aead_seal : Sodium → ℕ → List ℕ → List ℕ → List ℕ → List ℕ → ProtoResult (List ℕ)
aead_seal c room plaintext associated key nonce =
    if not (length nonce == nonce_size)
    then err malformed_field
    else if ltb room (length plaintext + tag_size)
    then err buffer_too_small
    else result_or malformed_field (c.encrypt plaintext associated nonce key)

unfoldable pub aead_open : Sodium → ℕ → List ℕ → List ℕ → List ℕ → List ℕ → ProtoResult (List ℕ)
aead_open c room ciphertext associated key nonce =
    if not (length nonce == nonce_size)
    then err malformed_field
    else if ltb (length ciphertext) tag_size
    then err authentication_failed
    else if ltb room (length ciphertext - tag_size)
    then err buffer_too_small
    else result_or authentication_failed (c.decrypt ciphertext associated nonce key)

unfoldable pub derive_bytes : Sodium → ℕ → List ℕ → ℕ → List ℕ → List ℕ
derive_bytes c width master subkey_id context = c.kdf width subkey_id context master

unfoldable pub derive_subkey : Sodium → List ℕ → ℕ → List ℕ → List ℕ
derive_subkey c master subkey_id context = c.kdf key_size subkey_id context master

unfoldable pub derive_from_info : Sodium → List ℕ → List ℕ → List ℕ
derive_from_info c master info = c.hash key_size info master

unfoldable pub hash : Sodium → ℕ → List ℕ → List ℕ
hash c width message = c.hash width message []

unfoldable pub authenticate : Sodium → List ℕ → List ℕ → List ℕ
authenticate c message key = c.auth message key

unfoldable pub verify_mac : Sodium → List ℕ → List ℕ → List ℕ → Bool
verify_mac c mac message key = c.verify mac message key
