-- ===== src/Primitives.antt =====
-- What the program takes from hashlib, json and the cryptography package, none of which is in
-- the repository: an interface, passed to every definition that uses it.
use mindees_blockchain.Prelude.{ℕ, Bool, List, Option, Text}
use mindees_blockchain.Json.{Json}

abbrev pub Bytes : Type 0
Bytes = List ℕ

pub record Primitives : Type 0 where
  -- hashlib.sha256(data).digest()
  pub sha256 : Bytes → Bytes
  -- json.dumps(obj, sort_keys=True, separators=(",", ":")); its text is ASCII
  pub dumps : Json → Text
  -- json.loads; `none` is the ValueError
  pub loads : Text → Option Json
  -- decode_dss_signature (`none` is the ValueError) and encode_dss_signature
  pub decode_dss : Bytes → Option (ℕ × ℕ)
  pub encode_dss : ℕ → ℕ → Bytes
  -- from_encoded_point and verify: key, signature, message; false is InvalidSignature, ValueError
  pub ec_verify : Bytes → Bytes → Bytes → Bool
  -- the compressed public key of a secret, and its ECDSA signature of a message
  pub ec_public : ℕ → Bytes
  pub ec_sign : ℕ → Bytes → Bytes
