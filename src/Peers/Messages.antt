-- ===== src/Peers/Messages.antt =====
-- p2p.P2PNode: the messages that come in. An address is a text; a send that fails is left out.
use mindees_blockchain.Prelude.{
  ℕ, ◌+◌, ◌-◌, ◌*◌, Bool, true, false, ◌&&◌, Option, none, some, List, [], ◌∷◌, ◌++◌, Text, Text_eq,
  ℕ_eq, pair_eq, ◌==◌, eqb, ltb, leb, not, if◌then◌else◌, length, take,
}
use mathlib.Core.List.{reverse}
use mindees_blockchain.Dict.{member}
use mindees_blockchain.Json.{Json}
use mindees_blockchain.Primitives.{Primitives, Bytes}
use mindees_blockchain.Core.Transaction.{Transaction, txid}
use mindees_blockchain.Core.Block.{Block}
use mindees_blockchain.Network.Codec.{encode_block, decode_tx, decode_block}
use mindees_blockchain.Mempool
use mindees_blockchain.Peers.{
  Peer, Message, tx_message, remember, seen_cap, block_wire_id, apply_or_buffer,
}
use mindees_blockchain.Service.{chain_of}
use mindees_blockchain.Result.{Result, ok, err, invalid}

abbrev pub max_peers : ℕ
max_peers = 256

abbrev pub max_sync_batch : ℕ
max_sync_batch = 1_000

-- `addr.rpartition(":")`, `none` where there is no colon
abbrev pub split_last : Text → Option (Text × Text)
split_last [] = none
split_last (c ∷ s) = elim (split_last s) [
  | some (host, port) ↦ some (c ∷ host, port)
  | none ↦ if eqb c b':' then some ([], s) else none
]

abbrev pub all_digits : Text → Bool
all_digits [] = true
all_digits (c ∷ s) = (leb b'0' c && leb c b'9') && all_digits s

abbrev pub number : ℕ → Text → ℕ
number acc [] = acc
number acc (c ∷ s) = number (10 * acc + (c - b'0')) s

-- `if not sep or not port.isdigit()`, for ASCII digits, and `int(port)`
abbrev pub endpoint : Text → Option (Text × ℕ)
endpoint addr = elim (split_last addr) [
  | none ↦ none
  | some (host, []) ↦ none
  | some (host, c ∷ port) ↦ if all_digits (c ∷ port) then some (host, number 0 (c ∷ port)) else none
]

abbrev learn : Option (Text × ℕ) → List (Text × ℕ) → List (Text × ℕ)
learn none peers = peers
learn (some peer) peers =
    if not (member peer peers) && ltb (length peers) max_peers then peers ++ peer ∷ [] else peers

-- P2PNode._learn_peers over the addresses of a hello
unfoldable pub learn_peers : List Text → Peer → Peer
learn_peers [] n = n
learn_peers (addr ∷ addrs) n =
    learn_peers addrs
      (if addr == n.advertise then n else record n { peers = learn (endpoint addr) n.peers })

abbrev blocks_above : ℕ → List Block → List Json
blocks_above since [] = []
blocks_above since (b ∷ bs) =
    if ltb since b.index then encode_block b ∷ blocks_above since bs else blocks_above since bs

abbrev pub may_reply : Option Text → Text → Bool
may_reply none host = true
may_reply (some ip) host = host == ip

-- Where the blocks go, and how many: nothing goes to another host than the asker.
unfoldable pub reply_to :
    Option (Text × ℕ) → Option Text → List Json → Option ((Text × ℕ) × List Json)
reply_to none client blocks = none
reply_to (some (host, port)) client blocks =
    if may_reply client host then some ((host, port), take max_sync_batch blocks) else none

-- P2PNode._serve_blocks
unfoldable pub serve_blocks : Text → ℕ → Option Text → Peer → Option ((Text × ℕ) × List Json)
unfolding reply_to
serve_blocks reply since client n =
    let c = chain_of n.service in
    reply_to (endpoint reply) client (blocks_above since (reverse (c.head ∷ c.older)))

module _ ⦃p : Primitives⦄ where
  abbrev pooled : Peer → Json → Result (Bool × Mempool.Pool) → Result (List Message) × Peer
  pooled n wire (err (invalid r)) = (ok [], n)
  pooled n wire (err e) = (err e, n)
  pooled n wire (ok (new, pool)) =
      (ok (tx_message wire ∷ []), record n { service = record (n.service) { pool = pool } })

  abbrev first_sight : Json → Transaction → Bool × List Text → Peer → Result (List Message) × Peer
  first_sight wire tx (false, seen) n = (ok [], n)
  first_sight wire tx (true, seen) n =
      pooled (record n { seen_tx = seen }) wire (Mempool.add tx (chain_of n.service) n.service.pool)

  -- P2PNode._on_message for a transaction
  unfoldable pub on_tx : Json → Peer → Result (List Message) × Peer
  on_tx wire n = elim (decode_tx wire) [
    | err e ↦ (err e, n)
    | ok tx ↦ first_sight wire tx (remember seen_cap (txid tx) n.seen_tx) n
  ]

  abbrev first_block :
      (Json → Text) → Json → Block → Bool × List Text → Peer → Result (List Message) × Peer
  first_block line_of wire block (false, seen) n = (ok [], n)
  first_block line_of wire block (true, seen) n =
      apply_or_buffer line_of (record n { seen_block = seen }) block wire

  -- P2PNode._on_message for a block
  unfoldable pub on_block :
      (Text → Bytes) → (Json → Text) → Json → Peer → Result (List Message) × Peer
  on_block utf8 line_of wire n = elim (decode_block wire) [
    | err e ↦ (err e, n)
    | ok block ↦
        first_block line_of wire block (remember seen_cap (block_wire_id utf8 block) n.seen_block) n
  ]
