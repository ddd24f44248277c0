-- ===== src/Core/Encoding.antt =====
-- core.py: the deterministic helpers. Hexadecimal is Python's bytes.hex and bytes.fromhex.
pub mod Hex
use mindees_blockchain.Prelude.{
  ℕ, zero, suc, ◌+◌, ◌-◌, ◌*◌, ◌/◌, ◌%◌, ◌^◌, ◌<◌, ◌≡◌, refl, Bool, true, false, ◌&&◌, ◌||◌, Option,
  none, some, List, [], ◌∷◌, ◌++◌, Text, text, leb, eqb, ltb, if◌then◌else◌, take, length,
}
use mindees_blockchain.Json.{Json}
use mindees_blockchain.Primitives.{Primitives, Bytes}

abbrev pub hex_digit : ℕ → ℕ
hex_digit d = if ltb d 10 then b'0' + d else (b'a' - 10) + d

unfoldable pub hex : Bytes → Text
hex [] = []
hex (b ∷ bs) = hex_digit (b / 16) ∷ hex_digit (b % 16) ∷ hex bs

-- The value of a hexadecimal digit of either case.
abbrev pub digit_value : ℕ → Option ℕ
digit_value c =
    if leb b'0' c && leb c b'9'
    then some (c - b'0')
    else if leb b'a' c && leb c b'f'
    then some (c - (b'a' - 10))
    else if leb b'A' c && leb c b'F'
    then some (c - (b'A' - 10))
    else none

-- fromhex skips white space between bytes.
abbrev pub is_space : ℕ → Bool
is_space c = eqb c 32 || (leb 9 c && leb c 13)

abbrev pub hex_pair : Option ℕ → Option ℕ → Option Bytes → Option Bytes
hex_pair (some a) (some b) (some bs) = some ((16 * a + b) ∷ bs)
hex_pair _ _ _ = none

unfoldable pub from_hex : Text → Option Bytes
from_hex [] = some []
from_hex (c ∷ []) = if is_space c then some [] else none
from_hex (c ∷ d ∷ s) = elim (is_space c) [
  | true ↦ from_hex (d ∷ s)
  | false ↦ hex_pair (digit_value c) (digit_value d) (from_hex s)
]

module _ ⦃p : Primitives⦄ where
  unfoldable pub sha256 : Bytes → Bytes
  sha256 bs = p.sha256 bs

  unfoldable pub double_sha256 : Bytes → Bytes
  unfolding sha256
  double_sha256 bs = sha256 (sha256 bs)

  unfoldable pub canonical : Json → Bytes
  canonical j = p.dumps j

-- `int.from_bytes(raw, "big")`
unfoldable pub from_bytes : ℕ → Bytes → ℕ
from_bytes acc [] = acc
from_bytes acc (b ∷ bs) = from_bytes (256 * acc + b) bs

-- `n.to_bytes(width, "big")` for `n < 256 ^ width`
unfoldable pub to_bytes : ℕ → ℕ → Bytes
to_bytes zero n = []
to_bytes (suc w) n = (n / 256 ^ w % 256) ∷ to_bytes w n

abbrev pub alphabet : Text
alphabet = text "123456789ABCDEFGHJKLMNPQRSTUVWXYZabcdefghijkmnopqrstuvwxyz"

abbrev pub char_at : Text → ℕ → ℕ
char_at [] i = 0
char_at (c ∷ s) zero = c
char_at (c ∷ s) (suc i) = char_at s i

-- `while n > 0: n, rem = divmod(n, 58); out = _B58[rem] + out`, on fuel
unfoldable pub base58 : ℕ → ℕ → Text → Text
base58 zero n out = out
base58 (suc f) n out =
    let rest = base58 f (n / 58) (char_at alphabet (n % 58) ∷ out) in if eqb n 0 then out else rest

-- A '1' in front of `out` for each zero byte that `raw` begins with.
unfoldable pub leading_ones : Bytes → Text → Text
leading_ones [] out = out
leading_ones (b ∷ bs) out = let rest = leading_ones bs (b'1' ∷ out) in if eqb b 0 then rest else out

module _ ⦃p : Primitives⦄ where
  -- The number itself is fuel enough: each round divides it.
  unfoldable pub b58check : Bytes → Text
  unfolding double_sha256 from_bytes base58 leading_ones
  b58check payload =
      let raw = payload ++ take 4 (double_sha256 payload) in
      let n = from_bytes 0 raw in leading_ones raw (base58 n n [])

  unfoldable pub address_from_public_key : Bytes → Text
  unfolding b58check sha256
  address_from_public_key key = b58check (0 ∷ take 20 (sha256 key))
