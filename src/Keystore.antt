-- ===== src/Keystore.antt =====
-- keystore.py: a secret under a passphrase. What the cryptography package and base64 compute is an
-- interface, and the bytes of os.urandom are arguments.
pub mod Roundtrip
use mindees_blockchain.Prelude.{
  ℕ, ◌*◌, ◌^◌, Option, none, some, Text, text, ◌==◌, Text_eq, not, [], ◌∷◌, if◌then◌else◌,
}
use mindees_blockchain.Json.{
  Json, str, Fields, field, end, lookup, num, is_units, units, as_str, truthy,
}
use mindees_blockchain.Primitives.{Bytes}
use mindees_blockchain.Core.Encoding.{hex, from_hex}
use mindees_blockchain.Result.{
  Result, ok, err, or_raise, ◌>>=◌, ◌>>◌, value_error, key_error, ill_typed,
}

pub record Cipher : Type 0 where
  -- base64.b64encode(raw).decode() and base64.b64decode(text.encode()); `none` is binascii.Error
  pub b64 : Bytes → Text
  pub unb64 : Text → Option Bytes
  -- passphrase.encode("utf-8")
  pub utf8 : Text → Bytes
  -- Scrypt(salt, 32, n, r, p).derive(passphrase); `none` is the ValueError on bad work factors
  pub scrypt : Bytes → ℕ → ℕ → ℕ → Bytes → Option Bytes
  -- AESGCM(key).encrypt(nonce, data, None) and decrypt; `none` is InvalidTag
  pub seal : Bytes → Bytes → Bytes → Bytes
  pub unseal : Bytes → Bytes → Bytes → Option Bytes

abbrev pub scrypt_n : ℕ
scrypt_n = 2 ^ 14

abbrev pub scrypt_r : ℕ
scrypt_r = 8

abbrev pub scrypt_p : ℕ
scrypt_p = 1

-- `keystore[key]`, a text
abbrev pub text_at : Text → Fields → Result Text
text_at k d = or_raise (lookup k d) key_error >>= λ v. or_raise (as_str v) ill_typed

-- `keystore[key]`, a work factor
abbrev pub number_at : Text → Fields → Result ℕ
number_at k d =
    or_raise (lookup k d) key_error >>= λ v. (if is_units v then ok (units v) else err ill_typed)

module _ ⦃cipher : Cipher⦄ where
  unfoldable pub derive : Text → Bytes → ℕ → ℕ → ℕ → Result Bytes
  derive passphrase salt n r p =
      or_raise (cipher.scrypt salt n r p (cipher.utf8 passphrase)) value_error

  unfoldable pub unb64 : Text → Result Bytes
  unb64 t = or_raise (cipher.unb64 t) value_error

  abbrev pub keystore_of : Bytes → Bytes → Bytes → Fields
  keystore_of salt nonce ciphertext = field (text "version") (num 1) (
      field (text "kdf") (str (text "scrypt")) (
        field (text "n") (num scrypt_n) (
          field (text "r") (num scrypt_r) (
            field (text "p") (num scrypt_p) (
              field (text "salt") (str (cipher.b64 salt)) (
                field (text "nonce") (str (cipher.b64 nonce))
                  (field (text "ciphertext") (str (cipher.b64 ciphertext)) end)))))))

  unfoldable pub encrypt_secret : Text → Text → Bytes → Bytes → Result Fields
  unfolding derive
  encrypt_secret secret_hex passphrase salt nonce = do
    secret ← or_raise (from_hex secret_hex) value_error
    if truthy (str passphrase) then ok tt else err value_error
    key ← derive passphrase salt scrypt_n scrypt_r scrypt_p
    ok (keystore_of salt nonce (cipher.seal key nonce secret))

  abbrev pub is_scrypt : Option Json → Result (Unit {0})
  is_scrypt (some (str k)) = if k == text "scrypt" then ok tt else err value_error
  is_scrypt _ = err value_error

  unfoldable pub decrypt_secret : Fields → Text → Result Text
  unfolding derive unb64
  decrypt_secret keystore passphrase = do
    is_scrypt (lookup (text "kdf") keystore)
    salt64 ← text_at (text "salt") keystore
    salt ← unb64 salt64
    n ← number_at (text "n") keystore
    r ← number_at (text "r") keystore
    p ← number_at (text "p") keystore
    key ← derive passphrase salt n r p
    nonce64 ← text_at (text "nonce") keystore
    nonce ← unb64 nonce64
    ciphertext64 ← text_at (text "ciphertext") keystore
    ciphertext ← unb64 ciphertext64
    secret ← or_raise (cipher.unseal key nonce ciphertext) value_error
    ok (hex secret)
