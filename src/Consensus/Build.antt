-- ===== src/Consensus/Build.antt =====
-- consensus.py: sealing a block and building the transactions of the layer.
use mindees_blockchain.Prelude.{ℕ, ◌+◌, List, [], Text, text}
use mindees_blockchain.Json.{Json, str, num, obj, end, field}
use mindees_blockchain.Primitives.{Primitives}
use mindees_blockchain.Core.Encoding.{hex, from_hex, canonical}
use mindees_blockchain.Core.Signature.{Wallet, address, public_key_hex, sign_bytes}
use mindees_blockchain.Core.Transaction.{
  Transaction, unsigned, sign, stake_sentinel, unstake_sentinel, slash_sentinel, vote_sentinel,
}
use mindees_blockchain.Core.Block.{Block, hash, post_init}
use mindees_blockchain.Network.Codec.{encode_tx, encode_block}
use mindees_blockchain.Consensus.State.{PosChain}
use mindees_blockchain.Consensus.Rules.{submit}
use mindees_blockchain.Result.{Result, ok, value_error, or_raise, ◌>>=◌}

module _ ⦃p : Primitives⦄ where
  unfoldable pub seal_block : Text → ℕ → Wallet → List Transaction → Json → Json → Result Block
  seal_block prev_hash index wallet transactions timestamp nonce = do
    b ← post_init (record {
      index = index;
      previous_hash = prev_hash;
      timestamp = timestamp;
      transactions = transactions;
      validator = address wallet;
      nonce = nonce;
      root = [];
      proposer_pubkey = [];
      validator_sig = [];
    })
    digest ← or_raise (from_hex (hash b)) value_error
    sig ← sign_bytes wallet digest
    ok (record b { proposer_pubkey = public_key_hex wallet; validator_sig = hex sig })

  -- ProofOfStakeChain.add_block
  unfoldable pub add_block : PosChain → List Transaction → Wallet → Json → Json → Result PosChain
  unfolding seal_block
  add_block c transactions wallet timestamp nonce = do
    block ← seal_block (hash c.head) (c.head.index + 1) wallet transactions timestamp nonce
    submit c block

  unfoldable pub stake_tx : Wallet → ℕ → ℕ → ℕ → Result Transaction
  stake_tx w amount fee nonce =
      sign w (unsigned (address w) stake_sentinel (num amount) (num fee) (num nonce) (str []))

  unfoldable pub unstake_tx : Wallet → ℕ → ℕ → ℕ → Result Transaction
  unstake_tx w amount fee nonce =
      sign w (unsigned (address w) unstake_sentinel (num amount) (num fee) (num nonce) (str []))

  -- Evidence is the canonical JSON text.
  unfoldable pub vote_tx : Wallet → Text → ℕ → Text → ℕ → ℕ → ℕ → Result Transaction
  vote_tx w source_hash source_height target_hash target_height nonce fee = sign w (
      unsigned (address w) vote_sentinel (num 0) (num fee) (num nonce) (
        str (
          canonical (
            obj (
              field (text "s") (str source_hash) (
                field (text "sh") (num source_height) (
                  field (text "t") (str target_hash)
                    (field (text "th") (num target_height) end))))))))

  abbrev evidence_of : Text → Json → Json → Json
  evidence_of kind a b = str (
      canonical
        (obj (field (text "kind") (str kind) (field (text "a") a (field (text "b") b end)))))

  unfoldable pub slash_tx : Wallet → Block → Block → ℕ → ℕ → Result Transaction
  slash_tx reporter a b nonce fee = sign reporter (
      unsigned (address reporter) slash_sentinel (num 0) (num fee) (num nonce)
        (evidence_of (text "block") (encode_block a) (encode_block b)))

  unfoldable pub vote_slash_tx : Wallet → Transaction → Transaction → ℕ → ℕ → Result Transaction
  vote_slash_tx reporter a b nonce fee = sign reporter (
      unsigned (address reporter) slash_sentinel (num 0) (num fee) (num nonce)
        (evidence_of (text "vote") (encode_tx a) (encode_tx b)))
