-- ===== src/Core/Signature/Malleability.antt =====
-- A signature that verifies has no second form: the twin with the other `s` is refused.
use mindees_blockchain.Prelude.{ℕ, ◌-◌, ◌≤◌, ◌<◌, ◌≡◌, true, false, some, arith, ltb, if◌then◌else◌}
use mindees_blockchain.Primitives.{Primitives, Bytes}
use mindees_blockchain.Core.Signature.{Wallet, secp256k1_n, half_n, verify_signature, sign_bytes}
use mindees_blockchain.Result.{ok}

module _ ⦃p : Primitives⦄ where
  -- If a signature of (r, s) verifies, no signature that decodes to (r, n - s) does, whatever the
  -- key and the message.
  pub verify_signature_unique :
      (key key' message message' sig twin : Bytes) (r s : ℕ)
      → p.decode_dss sig ≡ some (r, s)
      → p.decode_dss twin ≡ some (r, secp256k1_n - s)
      → verify_signature key message sig ≡ true
      → verify_signature key' message' twin ≡ false
  unfolding verify_signature
  verify_signature_unique key key' message message' sig twin r s decoded other h = ground arith

  -- What a wallet signs has a low `s`, if the library's decoder inverts its encoder and its own
  -- signatures decode to an `s` below the group order.
  pub sign_bytes_low :
      (w : Wallet) (message : Bytes) (r s : ℕ)
      → ((a b : ℕ) → p.decode_dss (p.encode_dss a b) ≡ some (a, b))
      → p.decode_dss (p.ec_sign w.secret message) ≡ some (r, s)
      → s < secp256k1_n
      → (sig : Bytes) × (t : ℕ) × (sign_bytes w message ≡ ok sig)
        × (p.decode_dss sig ≡ some (r, t))
        × (t ≤ half_n)
  unfolding sign_bytes
  sign_bytes_low w message r s inverse decoded bound = (
    if ltb half_n s then p.encode_dss r (secp256k1_n - s) else p.ec_sign w.secret message,
    if ltb half_n s then secp256k1_n - s else s,
    ground arith,
    ground (arith, inverse r (secp256k1_n - s)),
    ground arith,
  )
