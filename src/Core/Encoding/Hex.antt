-- ===== src/Core/Encoding/Hex.antt =====
-- bytes.fromhex undoes bytes.hex, so no hash, key or signature is lost on the wire.
use mindees_blockchain.Prelude.{
  ℕ, ◌+◌, ◌*◌, ◌/◌, ◌%◌, ◌<◌, ◌≡◌, refl, false, some, [], ◌∷◌, Text, arith, All, ap, ◌∙◌,
}
use mindees_blockchain.Primitives.{Bytes}
use mindees_blockchain.Core.Encoding.{hex, from_hex, hex_digit, digit_value, is_space}

digit_value-hex_digit : (d : ℕ) → d < 16 → digit_value (hex_digit d) ≡ some d
digit_value-hex_digit d h = ground arith

is_space-hex_digit : (d : ℕ) → d < 16 → is_space (hex_digit d) ≡ false
is_space-hex_digit d h = ground arith

from_hex_pair :
    (c d a b : ℕ) (s : Text) (bs : Bytes)
    → is_space c ≡ false
    → digit_value c ≡ some a
    → digit_value d ≡ some b
    → from_hex s ≡ some bs
    → from_hex (c ∷ d ∷ s) ≡ some ((16 * a + b) ∷ bs)
unfolding from_hex
from_hex_pair c d a b s bs h i j k = rw (h, from_hex) (rw (i, j, k) refl)

-- Bytes survive the round trip through hexadecimal.
pub from_hex-hex : (bs : Bytes) → All (λ b. b < 256) bs → from_hex (hex bs) ≡ some bs
unfolding hex
from_hex-hex [] h = unfold from_hex in refl
from_hex-hex (b ∷ bs) (lt, h) =
    from_hex_pair (hex_digit (b / 16)) (hex_digit (b % 16)) (b / 16) (b % 16) (hex bs) bs
      (is_space-hex_digit (b / 16) (omega arith)) (digit_value-hex_digit (b / 16) (omega arith))
      (digit_value-hex_digit (b % 16) (omega arith)) (from_hex-hex bs h)
    ∙ ap (λ (n : ℕ). some (n ∷ bs)) (omega arith)
