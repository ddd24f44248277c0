-- ===== src/Network/Codec.antt =====
-- network.py: the wire codec. A decoded field that the annotations call a string or a height is read
-- as one; Python would carry a value of another type along, and the model stops with `ill_typed`.
pub mod Roundtrip
use mindees_blockchain.Prelude.{ℕ, Option, none, some, List, [], ◌∷◌, Text, text, pos}
use mindees_blockchain.Json.{
  Json, int, str, arr, obj, Items, nil, cons, Fields, end, field, num, lookup,
}
use mindees_blockchain.Core.Transaction.{Transaction}
use mindees_blockchain.Primitives.{Primitives}
use mindees_blockchain.Core.Block.{Block, post_init}
use mindees_blockchain.Result.{
  Result, ok, err, invalid, ill_typed, malformed_tx, malformed_block, or_raise, ◌>>=◌,
}

unfoldable pub encode_tx : Transaction → Json
encode_tx tx = obj (
    field (text "sender") (str tx.sender) (
      field (text "recipient") (str tx.recipient) (
        field (text "amount") tx.amount (
          field (text "fee") tx.fee (
            field (text "nonce") tx.nonce (
              field (text "public_key") (str tx.public_key) (
                field (text "signature") (str tx.signature)
                  (field (text "evidence") tx.evidence end))))))))

abbrev pub as_text : Json → Result Text
as_text (str s) = ok s
as_text _ = err ill_typed

abbrev pub as_height : Json → Result ℕ
as_height (int (pos n)) = ok n
as_height _ = err ill_typed

-- All the keys are read before the transaction is built.
unfoldable pub decode_tx : Json → Result Transaction
unfolding lookup
decode_tx (obj d) = do
  sender ← or_raise (lookup (text "sender") d) (invalid malformed_tx)
  recipient ← or_raise (lookup (text "recipient") d) (invalid malformed_tx)
  amount ← or_raise (lookup (text "amount") d) (invalid malformed_tx)
  fee ← or_raise (lookup (text "fee") d) (invalid malformed_tx)
  nonce ← or_raise (lookup (text "nonce") d) (invalid malformed_tx)
  public_key ← or_raise (lookup (text "public_key") d) (invalid malformed_tx)
  signature ← or_raise (lookup (text "signature") d) (invalid malformed_tx)
  evidence ← or_raise (lookup (text "evidence") d) (invalid malformed_tx)
  sender ← as_text sender
  recipient ← as_text recipient
  public_key ← as_text public_key
  signature ← as_text signature
  ok (record {
    sender = sender;
    recipient = recipient;
    amount = amount;
    fee = fee;
    nonce = nonce;
    public_key = public_key;
    signature = signature;
    evidence = evidence;
  })
decode_tx _ = err (invalid malformed_tx)

unfoldable pub encode_txs : List Transaction → Items
unfolding encode_tx
encode_txs [] = nil
encode_txs (tx ∷ txs) = cons (encode_tx tx) (encode_txs txs)

unfoldable pub decode_txs : Items → Result (List Transaction)
unfolding decode_tx
decode_txs nil = ok []
decode_txs (cons d ds) = do tx ← decode_tx d; txs ← decode_txs ds; ok (tx ∷ txs)

unfoldable pub encode_block : Block → Json
unfolding encode_txs
encode_block b = obj (
    field (text "index") (num b.index) (
      field (text "previous_hash") (str b.previous_hash) (
        field (text "timestamp") b.timestamp (
          field (text "transactions") (arr (encode_txs b.transactions)) (
            field (text "validator") (str b.validator) (
              field (text "nonce") b.nonce (
                field (text "merkle_root") (str b.root) (
                  field (text "proposer_pubkey") (str b.proposer_pubkey)
                    (field (text "validator_sig") (str b.validator_sig) end)))))))))

-- `d.get(key, default)`
abbrev pub lookup_or : Text → Json → Fields → Json
lookup_or k v d = elim (lookup k d) [ none ↦ v | some w ↦ w ]

abbrev as_items : Option Json → Result Items
as_items (some (arr ds)) = ok ds
as_items _ = err (invalid malformed_block)

-- The block is built last, and its constructor computes a Merkle root that is empty.
unfoldable pub decode_block : ⦃p : Primitives⦄ → Json → Result Block
unfolding lookup decode_txs post_init
decode_block ⦃p⦄ (obj d) = do
  ds ← as_items (lookup (text "transactions") d)
  index ← or_raise (lookup (text "index") d) (invalid malformed_block)
  previous_hash ← or_raise (lookup (text "previous_hash") d) (invalid malformed_block)
  timestamp ← or_raise (lookup (text "timestamp") d) (invalid malformed_block)
  txs ← decode_txs ds
  validator ← or_raise (lookup (text "validator") d) (invalid malformed_block)
  root ← or_raise (lookup (text "merkle_root") d) (invalid malformed_block)
  index ← as_height index
  previous_hash ← as_text previous_hash
  validator ← as_text validator
  root ← as_text root
  proposer_pubkey ← as_text (lookup_or (text "proposer_pubkey") (str []) d)
  validator_sig ← as_text (lookup_or (text "validator_sig") (str []) d)
  post_init (record {
    index = index;
    previous_hash = previous_hash;
    timestamp = timestamp;
    transactions = txs;
    validator = validator;
    nonce = lookup_or (text "nonce") (num 0) d;
    root = root;
    proposer_pubkey = proposer_pubkey;
    validator_sig = validator_sig;
  })
decode_block ⦃p⦄ _ = err (invalid malformed_block)
