-- ===== src/Core/Block.antt =====
-- core.Block: the record, its header hash, and the constructor that fills in the Merkle root.
-- The timestamp and the nonce are only hashed, so they stay as the wire gave them.
use mindees_blockchain.Prelude.{ℕ, List, map, Text, text, if◌then◌else◌}
use mindees_blockchain.Json.{Json, str, num, obj, end, field, truthy}
use mindees_blockchain.Primitives.{Primitives}
use mindees_blockchain.Core.Encoding.{hex, sha256, canonical}
use mindees_blockchain.Core.Transaction.{Transaction, txid}
use mindees_blockchain.Core.Merkle.{merkle_root}
use mindees_blockchain.Result.{Result, ok, ◌>>=◌}

pub record Block : Type 0 where
  pub index : ℕ
  pub previous_hash : Text
  pub timestamp : Json
  pub transactions : List Transaction
  pub validator : Text
  pub nonce : Json
  pub root : Text
  pub proposer_pubkey : Text
  pub validator_sig : Text

module _ ⦃p : Primitives⦄ where
  -- `merkle_root([tx.txid for tx in transactions])`
  unfoldable pub root_of : List Transaction → Result Text
  root_of txs = merkle_root (map txid txs)

  -- Block.__post_init__
  unfoldable pub post_init : Block → Result Block
  unfolding root_of
  post_init b =
      if truthy (str b.root)
      then ok b
      else do r ← root_of b.transactions; ok (record b { root = r })

  unfoldable pub header : Block → Json
  header b = obj (
      field (text "index") (num b.index) (
        field (text "previous_hash") (str b.previous_hash) (
          field (text "timestamp") b.timestamp (
            field (text "merkle_root") (str b.root)
              (field (text "validator") (str b.validator) (field (text "nonce") b.nonce end))))))

  unfoldable pub hash : Block → Text
  unfolding header
  hash b = hex (sha256 (canonical (header b)))
