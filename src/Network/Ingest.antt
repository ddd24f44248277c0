-- ===== src/Network/Ingest.antt =====
-- network._Handler and Node.broadcast_tx: how messages enter the gossiping node.
use mindees_blockchain.Prelude.{
  ℕ, Bool, true, false, ◌||◌, not, Option, none, some, List, [], ◌∷◌, Text, text, Text_eq, ◌==◌,
  ltb, if◌then◌else◌, length, eqb,
}
use mindees_blockchain.Json.{Json, null, str, obj, Fields, lookup}
use mindees_blockchain.Primitives.{Primitives}
use mindees_blockchain.Core.Transaction.{Transaction}
use mindees_blockchain.Network.Codec.{encode_tx}
use mindees_blockchain.Network.Gossip.{Node, recv_tx, recv_block}
use mindees_blockchain.Storage.{newline}
use mindees_blockchain.Result.{Result, Error, ok, err, invalid, key_error, value_error, type_error}

abbrev pub max_ingest_bytes : ℕ
max_ingest_bytes = 4_000_000

-- The exceptions that the handler swallows.
unfoldable pub is_caught : Error → Bool
is_caught (invalid r) = true
is_caught key_error = true
is_caught value_error = true
is_caught type_error = true
is_caught e = false

abbrev ends_line : Text → Bool
ends_line [] = false
ends_line (c ∷ []) = eqb c newline
ends_line (c ∷ d ∷ s) = ends_line (d ∷ s)

abbrev as_fields : Option Json → Result (Option Fields)
as_fields none = err value_error
as_fields (some (obj msg)) = ok (some msg)
as_fields (some v) = ok none

abbrev pub or_null : Option Json → Json
or_null none = null
or_null (some v) = v

module _ ⦃p : Primitives⦄ where
  -- What `readline` may give and `handle` goes on with, as a JSON object; a text of ASCII letters
  -- has as many bytes.
  unfoldable pub read_line : ℕ → Text → Result (Option Fields)
  read_line max line =
      if not (ends_line line) || ltb max (length line) then ok none else as_fields (p.loads line)

  -- Node.broadcast_tx: the peers to relay to, and the node
  unfoldable pub broadcast_tx : Transaction → Node → Result (List Text) × Node
  broadcast_tx tx n = recv_tx (encode_tx tx) none n

  abbrev with_data :
      (Json → Option Text → Node → Result (List Text) × Node)
      → Option Json
      → Node
      → Result (List Text) × Node
  with_data receive none n = (err key_error, n)
  with_data receive (some wire) n = receive wire none n

  abbrev by_type : Option Json → Fields → Node → Result (List Text) × Node
  by_type (some (str kind)) msg n =
      if kind == text "tx"
      then with_data recv_tx (lookup (text "data") msg) n
      else if kind == text "block"
      then with_data recv_block (lookup (text "data") msg) n
      else (ok [], n)
  by_type _ msg n = (ok [], n)

  abbrev dropped : Result (List Text) × Node → Result (List Text) × Node
  dropped (ok relays, n) = (ok relays, n)
  dropped (err e, n) = if is_caught e then (ok [], n) else (err e, n)

  abbrev ingested : Result (Option Fields) → Node → Result (List Text) × Node
  ingested (err e) n = dropped (err e, n)
  ingested (ok none) n = (ok [], n)
  ingested (ok (some msg)) n = dropped (by_type (lookup (text "type") msg) msg n)

  -- _Handler.handle: a line from a socket
  unfoldable pub ingest : Text → Node → Result (List Text) × Node
  unfolding read_line is_caught
  ingest line n = ingested (read_line max_ingest_bytes line) n
