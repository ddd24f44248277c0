-- ===== src/Network/Codec/Roundtrip.antt =====
-- What a node encodes for the wire or for the disk, every node decodes to the same value.
use mindees_blockchain.Prelude.{◌≡◌, refl, true, ◌∙◌, List, [], ◌∷◌, text_eq}
use mindees_blockchain.Json.{lookup, str, truthy}
use mindees_blockchain.Primitives.{Primitives}
use mindees_blockchain.Core.Transaction.{Transaction}
use mindees_blockchain.Core.Block.{Block, post_init}
use mindees_blockchain.Network.Codec.{
  encode_tx, decode_tx, encode_txs, decode_txs, encode_block, decode_block,
}
use mindees_blockchain.Result.{ok}

-- A transaction comes back from the wire as it was.
decode_tx-encode_tx : (tx : Transaction) → decode_tx (encode_tx tx) ≡ ok tx
unfolding decode_tx encode_tx lookup text_eq
decode_tx-encode_tx tx = refl

pub decode_txs-encode_txs : (txs : List Transaction) → decode_txs (encode_txs txs) ≡ ok txs
unfolding decode_txs encode_txs
decode_txs-encode_txs [] = refl
decode_txs-encode_txs (tx ∷ txs) = rw (decode_tx-encode_tx tx, decode_txs-encode_txs txs)

module _ ⦃p : Primitives⦄ where
  -- A decoded block is what the constructor of blocks makes of the block that was encoded: the block
  -- as it was, with its transactions, root and seal, if it has a root, and the block with the root of
  -- its transactions, or the error of computing it, if its root is empty.
  pub decode_block-encode_block : (b : Block) → decode_block (encode_block b) ≡ post_init b
  unfolding decode_block encode_block lookup text_eq
  decode_block-encode_block b = rw (decode_txs-encode_txs b.transactions)

  -- A block with a root comes back as it was.
  pub decode_rooted_block :
      (b : Block) → truthy (str b.root) ≡ true → decode_block (encode_block b) ≡ ok b
  unfolding post_init
  decode_rooted_block b rooted = decode_block-encode_block b ∙ rw rooted
