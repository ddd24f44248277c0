-- ===== src/Core/Signature.antt =====
-- core.Wallet and core.verify_signature: low-S ECDSA over secp256k1. A wallet is its secret.
pub mod Malleability
use mindees_blockchain.Prelude.{
  ℕ, ◌-◌, ◌/◌, ◌^◌, Bool, true, false, ◌&&◌, Option, none, some, Text, leb, ltb, if◌then◌else◌, not,
}
use mindees_blockchain.Primitives.{Primitives, Bytes}
use mindees_blockchain.Core.Encoding.{hex, address_from_public_key}
use mindees_blockchain.Result.{Result, ok, value_error, or_raise, ◌>>=◌}

abbrev pub secp256k1_n : ℕ
secp256k1_n = 0xFFFFFFFFFFFFFFFFFFFFFFFFFFFFFFFEBAAEDCE6AF48A03BBFD25E8CD0364141

abbrev pub half_n : ℕ
half_n = secp256k1_n / 2

pub record Wallet : Type 0 where
  pub secret : ℕ

-- Wallet.from_secret; `none` is the ValueError
unfoldable pub from_secret : ℕ → Option Wallet
from_secret secret =
    if leb 1 secret && ltb secret (2 ^ 256) then some (record { secret = secret }) else none

module _ ⦃p : Primitives⦄ where
  unfoldable pub public_key_bytes : Wallet → Bytes
  public_key_bytes w = p.ec_public w.secret

  unfoldable pub public_key_hex : Wallet → Text
  unfolding public_key_bytes
  public_key_hex w = hex (public_key_bytes w)

  unfoldable pub address : Wallet → Text
  unfolding public_key_bytes
  address w = address_from_public_key (public_key_bytes w)

  abbrev pub low_s : ℕ × ℕ → Bytes → Bytes
  low_s (r, s) sig = if ltb half_n s then p.encode_dss r (secp256k1_n - s) else sig

  -- Wallet.sign: the signature of the library with a high `s` replaced
  unfoldable pub sign_bytes : Wallet → Bytes → Result Bytes
  sign_bytes w message = do
    let sig = p.ec_sign w.secret message
    rs ← or_raise (p.decode_dss sig) value_error
    ok (low_s rs sig)

  abbrev pub in_range : ℕ × ℕ → Bool
  in_range (r, s) = (leb 1 r && ltb r secp256k1_n) && (leb 1 s && leb s half_n)

  unfoldable pub verify_signature : Bytes → Bytes → Bytes → Bool
  verify_signature key message signature = elim (p.decode_dss signature) [
    | none ↦ false
    | some rs ↦ if not (in_range rs) then false else p.ec_verify key signature message
  ]
