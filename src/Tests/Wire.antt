-- ===== src/Tests/Wire.antt =====
-- The theorems on keys, hashes, the Merkle tree, the wire and the release schedule.
use mindees_blockchain.Prelude.{
  ℕ, ◌+◌, ◌-◌, ◌≤◌, ◌≡◌, refl, true, false, some, [], ◌∷◌, text, arith, length,
}
use mindees_blockchain.Core.Encoding.{from_hex}
use mindees_blockchain.Core.Signature.{secp256k1_n, half_n, sign_bytes, verify_signature}
use mindees_blockchain.Core.Signature.Malleability.{verify_signature_unique, sign_bytes_low}
use mindees_blockchain.Core.Merkle.{reduce, merkle_root, leaves}
use mindees_blockchain.Core.Merkle.Layers.{length-reduce, merkle_root_twin}
use mindees_blockchain.Core.Block.{post_init}
use mindees_blockchain.Network.Codec.{encode_block, decode_block}
use mindees_blockchain.Network.Codec.Roundtrip.{decode_block-encode_block}
use mindees_blockchain.Vesting.{vested, locked}
use mindees_blockchain.Vesting.Schedule.{locked_schedule}
use mindees_blockchain.Primitives.{Bytes}
use mindees_blockchain.Result.{ok}
use mindees_blockchain.Tests.Toy.{toy, alice, decode_toy}
use mindees_blockchain.Tests.Blocks.{block₁}

verifies : verify_signature (1 ∷ []) (9 ∷ []) (3 ∷ 5 ∷ []) ≡ true
unfolding verify_signature
verifies = refl

verify_signature_unique_example :
    verify_signature (1 ∷ []) (9 ∷ []) (3 ∷ (secp256k1_n - 5) ∷ []) ≡ false
verify_signature_unique_example =
    verify_signature_unique (1 ∷ []) (1 ∷ []) (9 ∷ []) (9 ∷ []) (3 ∷ 5 ∷ [])
      (3 ∷ (secp256k1_n - 5) ∷ []) 3 5 refl refl verifies

sign_bytes_low_example :
    (sig : Bytes) × (t : ℕ) × (sign_bytes alice (9 ∷ []) ≡ ok sig)
    × (decode_toy sig ≡ some (1, t))
    × (t ≤ half_n)
sign_bytes_low_example = sign_bytes_low alice (9 ∷ []) 1 1 (λ a b. refl) refl (omega arith)

length-reduce_example : length (reduce 3 ((1 ∷ []) ∷ (2 ∷ []) ∷ (3 ∷ []) ∷ [])) ≡ 1
length-reduce_example =
    length-reduce 3 ((1 ∷ []) ∷ (2 ∷ []) ∷ (3 ∷ []) ∷ []) (omega arith) (omega arith)

three_leaves :
    leaves (text "0a" ∷ text "0b" ∷ text "0c" ∷ []) ≡ ok ((10 ∷ []) ∷ (11 ∷ []) ∷ (12 ∷ []) ∷ [])
unfolding leaves from_hex
three_leaves = refl

merkle_root_twin_example :
    merkle_root (text "0a" ∷ text "0b" ∷ text "0c" ∷ text "0c" ∷ [])
    ≡ merkle_root (text "0a" ∷ text "0b" ∷ text "0c" ∷ [])
merkle_root_twin_example =
    merkle_root_twin (text "0a") (text "0b") (text "0c" ∷ [])
      ((10 ∷ []) ∷ (11 ∷ []) ∷ (12 ∷ []) ∷ []) three_leaves refl

decode_block-encode_block_example : decode_block (encode_block block₁) ≡ post_init block₁
decode_block-encode_block_example = decode_block-encode_block block₁

locked_schedule_example :
    (locked 1000 5 10 100 60 ≤ locked 1000 5 10 100 40)
    × (locked 1000 5 10 100 40 ≤ 1000)
    × (vested 1000 5 10 100 40 + locked 1000 5 10 100 40 ≡ 1000)
locked_schedule_example = locked_schedule 1000 5 10 100 40 60 (omega arith)
