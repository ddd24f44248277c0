-- ===== src/Keystore/Roundtrip.antt =====
-- A secret comes back from its keystore under the passphrase that sealed it, and under no other.
use mindees_blockchain.Prelude.{◌≡◌, ◌∙◌, refl, true, none, some, Text, Text_eq, text_eq}
use mindees_blockchain.Json.{Fields, str, truthy, lookup, is_units, units, as_str}
use mindees_blockchain.Primitives.{Bytes}
use mindees_blockchain.Core.Encoding.{hex, from_hex}
use mindees_blockchain.Keystore.{
  Cipher, scrypt_n, scrypt_r, scrypt_p, keystore_of, encrypt_secret, decrypt_secret,
}
use mindees_blockchain.Result.{ok, err, or_raise, ◌>>=◌, value_error}

module _ ⦃cipher : Cipher⦄ where
  -- What decryption makes of a keystore with the work factors of the source.
  opened :
      (salt nonce ciphertext : Bytes) (passphrase : Text) (key : Bytes)
      → ((b : Bytes) → cipher.unb64 (cipher.b64 b) ≡ some b)
      → cipher.scrypt salt scrypt_n scrypt_r scrypt_p (cipher.utf8 passphrase) ≡ some key
      → decrypt_secret (keystore_of salt nonce ciphertext) passphrase
        ≡ (or_raise (cipher.unseal key nonce ciphertext) value_error >>= λ secret. ok (hex secret))
  unfolding decrypt_secret lookup text_eq is_units units as_str
  opened salt nonce ciphertext passphrase key plain derived = simp (plain, derived)

  sealed :
      (secret_hex passphrase : Text) (salt nonce secret key : Bytes)
      → from_hex secret_hex ≡ some secret
      → truthy (str passphrase) ≡ true
      → cipher.scrypt salt scrypt_n scrypt_r scrypt_p (cipher.utf8 passphrase) ≡ some key
      → encrypt_secret secret_hex passphrase salt nonce
        ≡ ok (keystore_of salt nonce (cipher.seal key nonce secret))
  unfolding encrypt_secret
  sealed secret_hex passphrase salt nonce secret key read given derived =
      simp (read, given, derived)

  -- If base64 decodes what it encodes, scrypt derives a key from each of two passphrases, AES-GCM
  -- opens under the first key what it sealed under it and opens none of it under the other, the
  -- secret is hexadecimal and the passphrase is not empty, then the secret is encrypted, the
  -- keystore opens under the passphrase with the bytes of the secret, in the digits of `hex`, and
  -- the second passphrase raises ValueError.
  pub keystore_roundtrip :
      (secret_hex passphrase other : Text) (salt nonce secret key key' : Bytes)
      → ((b : Bytes) → cipher.unb64 (cipher.b64 b) ≡ some b)
      → ((m : Bytes) → cipher.unseal key nonce (cipher.seal key nonce m) ≡ some m)
      → ((m : Bytes) → cipher.unseal key' nonce (cipher.seal key nonce m) ≡ none)
      → cipher.scrypt salt scrypt_n scrypt_r scrypt_p (cipher.utf8 passphrase) ≡ some key
      → cipher.scrypt salt scrypt_n scrypt_r scrypt_p (cipher.utf8 other) ≡ some key'
      → from_hex secret_hex ≡ some secret
      → truthy (str passphrase) ≡ true
      → (ks : Fields) × (encrypt_secret secret_hex passphrase salt nonce ≡ ok ks)
        × (decrypt_secret ks passphrase ≡ ok (hex secret))
        × (decrypt_secret ks other ≡ err value_error)
  keystore_roundtrip secret_hex passphrase other salt nonce secret key key' plain opens shut derived
        wrong read given =
      let c = cipher.seal key nonce secret in
      (
        keystore_of salt nonce c,
        sealed secret_hex passphrase salt nonce secret key read given derived,
        opened salt nonce c passphrase key plain derived ∙ rw (opens secret) refl,
        opened salt nonce c other key' plain wrong ∙ rw (shut secret) refl,
      )
