-- ===== src/Peers/Inbox.antt =====
-- p2p._Handler and P2PNode._on_message: one line from a socket, the node afterwards and what it sends.
use mindees_blockchain.Prelude.{
  ℕ, pos, negsuc, Option, none, some, List, [], ◌∷◌, ◌++◌, Text, text, Text_eq, ◌==◌, if◌then◌else◌,
  map,
}
use mathlib.Core.List.{reverse}
use mindees_blockchain.Json.{
  Json, bool, int, str, arr, obj, Items, nil, cons, Fields, field, end, lookup, truthy,
}
use mindees_blockchain.Primitives.{Primitives, Bytes}
use mindees_blockchain.Network.Codec.{encode_block}
use mindees_blockchain.Network.Ingest.{is_caught, read_line, or_null}
use mindees_blockchain.Service.{chain_of}
use mindees_blockchain.Peers.{Peer, Message}
use mindees_blockchain.Peers.Messages.{
  endpoint, reply_to, learn_peers, serve_blocks, on_tx, on_block,
}
use mindees_blockchain.Result.{Result, ok, err, type_error, attribute_error}

abbrev pub max_msg_bytes : ℕ
max_msg_bytes = 4_000_000

-- What a message makes a node send: to all its peers, and blocks to the one that asked.
pub record Sent : Type 0 where
  pub broadcast : List Message
  pub reply : Option ((Text × ℕ) × List Json)

abbrev pub nothing : Sent
nothing = record { broadcast = []; reply = none }

abbrev list_of : Items → List Json
list_of nil = []
list_of (cons v vs) = v ∷ list_of vs

-- `addr.rpartition` of what is no text raises AttributeError.
abbrev learn_one : Json → Peer → Result (Unit {0}) × Peer
learn_one (str a) n = (ok tt, learn_peers (a ∷ []) n)
learn_one v n = if truthy v then (err attribute_error, n) else (ok tt, n)

abbrev then_learn : Result (Unit {0}) → Peer → Result Sent × Peer → Result Sent × Peer
then_learn (err e) n rest = (err e, n)
then_learn (ok u) n rest = rest

unfoldable pub learn_addresses : List Json → Peer → Result Sent × Peer
learn_addresses [] n = (ok nothing, n)
learn_addresses (v ∷ vs) n = let (r, n') = learn_one v n in then_learn r n' (learn_addresses vs n')

abbrev pub hello_from : Json → Option Json → Peer → Result Sent × Peer
hello_from addr none n = learn_addresses (addr ∷ []) n
hello_from addr (some (arr vs)) n = learn_addresses (addr ∷ list_of vs) n
hello_from addr (some v) n = (err type_error, n)

-- `[msg.get("addr")] + msg.get("peers", [])`
unfoldable pub on_hello : Fields → Peer → Result Sent × Peer
unfolding learn_addresses
on_hello msg n = hello_from (or_null (lookup (text "addr") msg)) (lookup (text "peers") msg) n

unfoldable pub swallow : Result Sent × Peer → Result Sent × Peer
unfolding is_caught
swallow (err e, n) = if is_caught e then (ok nothing, n) else (err e, n)
swallow (ok sent, n) = (ok sent, n)

module _ ⦃p : Primitives⦄ where
  -- Blocks above a negative height are all blocks.
  abbrev serve_all : Text → Option Text → Peer → Option ((Text × ℕ) × List Json)
  serve_all reply client n =
      let c = chain_of n.service in
      reply_to (endpoint reply) client (map encode_block (reverse (c.head ∷ c.older)))

  -- `since`, where it is an int: a bool counts as one.
  unfoldable pub serve_since :
      Text → Option Json → Option Text → Peer → Option ((Text × ℕ) × List Json)
  unfolding serve_blocks reply_to
  serve_since reply none client n = serve_blocks reply 0 client n
  serve_since reply (some (int (pos since))) client n = serve_blocks reply since client n
  serve_since reply (some (int (negsuc m))) client n = serve_all reply client n
  serve_since reply (some (bool b)) client n = serve_blocks reply (if b then 1 else 0) client n
  serve_since reply (some v) client n = none

  abbrev reply_of : Option Json → Option Json → Option Text → Peer → Result Sent × Peer
  reply_of none since client n = (ok nothing, n)
  reply_of (some (str reply)) since client n =
      (ok (record { broadcast = []; reply = serve_since reply since client n }), n)
  reply_of (some v) since client n = (err attribute_error, n)

  unfoldable pub on_get_blocks : Fields → Option Text → Peer → Result Sent × Peer
  unfolding serve_since
  on_get_blocks msg client n =
      reply_of (lookup (text "reply") msg) (lookup (text "since") msg) client n

  abbrev pub to_all : Result (List Message) × Peer → Result Sent × Peer
  to_all (err e, n) = (err e, n)
  to_all (ok sent, n) = (ok (record { broadcast = sent; reply = none }), n)

  module _ (utf8 : Text → Bytes) (line_of : Json → Text) where
    unfoldable pub on_kind : Text → Fields → Option Text → Peer → Result Sent × Peer
    unfolding on_hello on_get_blocks
    on_kind kind msg client n =
        if kind == text "hello"
        then on_hello msg n
        else if kind == text "tx"
        then to_all (on_tx (or_null (lookup (text "data") msg)) n)
        else if kind == text "block"
        then to_all (on_block utf8 line_of (or_null (lookup (text "data") msg)) n)
        else if kind == text "get_blocks"
        then on_get_blocks msg client n
        else (ok nothing, n)

    abbrev pub typed : Option Json → Fields → Option Text → Peer → Result Sent × Peer
    typed (some (str kind)) msg client n = on_kind kind msg client n
    typed _ msg client n = (ok nothing, n)

    -- P2PNode._on_message, from a client whose address is known or not
    unfoldable pub on_message : Fields → Option Text → Peer → Result Sent × Peer
    unfolding on_kind
    on_message msg client n = typed (lookup (text "type") msg) msg client n

    abbrev pub handled : Result (Option Fields) → Option Text → Peer → Result Sent × Peer
    handled (err e) client n = swallow (err e, n)
    handled (ok none) client n = (ok nothing, n)
    handled (ok (some msg)) client n = swallow (on_message msg client n)

    -- _Handler.handle
    unfoldable pub handle : Text → Option Text → Peer → Result Sent × Peer
    unfolding read_line on_message swallow
    handle line client n = handled (read_line max_msg_bytes line) client n

abbrev known_as : (ℕ → Text) → List (Text × ℕ) → Items
known_as show [] = nil
known_as show ((host, port) ∷ peers) =
    cons (str (host ++ text ":" ++ show port)) (known_as show peers)

-- P2PNode.announce: the message to all peers; `show` stands for str
unfoldable pub announce : (ℕ → Text) → Peer → Json
announce show n = obj (
    field (text "type") (str (text "hello")) (
      field (text "addr") (str n.advertise)
        (field (text "peers") (arr (known_as show n.peers)) end)))
