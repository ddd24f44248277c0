-- ===== src/Peers.antt =====
-- p2p.P2PNode without its sockets: what a node remembers, when it votes and produces, and what it
-- does with blocks that come before their parents. What it sends to its peers is a list of messages.
pub mod Memory
pub mod Messages
pub mod Inbox
pub mod Reflection
use mindees_blockchain.Prelude.{
  ℕ, zero, suc, ◌+◌, ◌%◌, ◌≤◌, Bool, true, false, ◌&&◌, ◌||◌, Option, none, some, List, [], ◌∷◌,
  ◌++◌, Text, text, Text_eq, ℕ_eq, pair_eq, ◌==◌, eqb, ltb, leb, not, if◌then◌else◌, length, drop,
  arith,
}
use mathlib.Core.List.{reverse}
use mindees_blockchain.Dict.{Dict, get_or, contains, put, erase, member, add}
use mindees_blockchain.Json.{Json}
use mindees_blockchain.Primitives.{Primitives, Bytes}
use mindees_blockchain.Core.Encoding.{hex, sha256}
use mindees_blockchain.Core.Signature.{Wallet, address}
use mindees_blockchain.Core.Transaction.{Transaction, txid}
use mindees_blockchain.Core.Block.{Block, hash}
use mindees_blockchain.Network.Codec.{encode_tx, encode_block, decode_block}
use mindees_blockchain.Consensus.State.{PosChain}
use mindees_blockchain.Consensus.Rules.{next_validator}
use mindees_blockchain.Consensus.Build.{vote_tx}
use mindees_blockchain.Mempool.{Pool}
use mindees_blockchain.Mempool
use mindees_blockchain.Service.{Service, chain_of, produce_block, receive_block}
use mindees_blockchain.Result.{Result, ok, err, invalid, ◌>>=◌}

abbrev pub seen_cap : ℕ
seen_cap = 100_000

abbrev pub max_orphans : ℕ
max_orphans = 5_000

pub data Message : Type 0 where
  tx_message : Json → Message
  block_message : Json → Message
  get_blocks : ℕ → Text → Message

-- What is seen is kept in the order of its arrival.
pub record Peer : Type 0 where
  pub service : Service
  pub peers : List (Text × ℕ)
  pub seen_tx : List Text
  pub seen_block : List Text
  pub orphans : Dict Text (List Json)
  pub voted_targets : List ℕ
  pub advertise : Text

-- P2PNode._remember with the bound on the memory: whether the key is new, and the memory
unfoldable pub remember : ℕ → Text → List Text → Bool × List Text
remember cap key seen =
    if member key seen
    then (false, seen)
    else if ltb cap (length (seen ++ key ∷ []))
    then (true, drop 1 (seen ++ key ∷ []))
    else (true, seen ++ key ∷ [])

module _ ⦃p : Primitives⦄ where
  -- _block_wire_id; `utf8` stands for str.encode
  unfoldable pub block_wire_id : (Text → Bytes) → Block → Text
  block_wire_id utf8 b = hex (sha256 (utf8 (hash b ++ (b.validator_sig ++ b.proposer_pubkey))))

-- The newest checkpoint of a chain, whose blocks come newest first.
unfoldable pub vote_target : ℕ → List Block → Option Block
vote_target epoch [] = none
vote_target epoch (b ∷ older) =
    if ltb 0 b.index && eqb (b.index % epoch) 0 then some b else vote_target epoch older

module _ ⦃p : Primitives⦄ where
  -- The highest justified checkpoint below a height; blocks come oldest first.
  unfoldable pub vote_source : ℕ → List Text → ℕ → List Block → Text × ℕ → Text × ℕ
  vote_source epoch justified height [] source = source
  vote_source epoch justified height (b ∷ newer) source = vote_source epoch justified height newer (
      if ltb b.index height
        && (eqb (b.index % epoch) 0 && (member (hash b) justified && leb source.1 b.index))
      then (hash b, b.index)
      else source)

-- The transactions of a sender that wait in the pool.
unfoldable pub pending : Text → Pool → ℕ
pending a [] = 0
pending a ((i, t) ∷ pool) = (if t.sender == a then 1 else 0) + pending a pool

module _ ⦃p : Primitives⦄ where
  abbrev vote_between : Peer → Wallet → Block → Text × ℕ → Result (Option (Transaction × ℕ))
  vote_between n v target source =
      if leb target.index source.1
      then ok none
      else (vote_tx v source.0 source.1 (hash target) target.index
            (get_or (address v) 0 (chain_of n.service).nonces + pending (address v) n.service.pool)
            0
          >>= λ tx. ok (some (tx, target.index)))

  abbrev vote_for : Peer → Wallet → Option Block → Result (Option (Transaction × ℕ))
  vote_for n v none = ok none
  vote_for n v (some target) =
      let c = chain_of n.service in
      if member target.index n.voted_targets
      then ok none
      else vote_between n v target (
          vote_source c.self.config.epoch c.self.state.justified target.index
            (reverse (c.head ∷ c.older)) c.self.state.finalized)

  -- The steps of `auto_vote` before the vote is submitted: the vote with its target height.
  unfoldable pub plan_vote : Peer → Result (Option (Transaction × ℕ))
  unfolding vote_target vote_source pending
  plan_vote n = elim n.service.validator [
    | none ↦ ok none
    | some v ↦
        let c = chain_of n.service in
        if not (contains (address v) c.self.state.stakes)
        then ok none
        else vote_for n v (vote_target c.self.config.epoch (c.head ∷ c.older))
  ]

  abbrev with_pool : Peer → Transaction → Pool → Peer
  with_pool n tx pool = record n {
    service = record (n.service) { pool = pool };
    seen_tx = (remember seen_cap (txid tx) n.seen_tx).1;
  }

  -- P2PNode.submit_tx: the messages, and the node afterwards
  unfoldable pub submit_tx : Peer → Transaction → Result (List Message) × Peer
  submit_tx n tx = elim (Mempool.add tx (chain_of n.service) n.service.pool) [
    | err e ↦ (err e, n)
    | ok (new, pool) ↦ (ok (tx_message (encode_tx tx) ∷ []), with_pool n tx pool)
  ]

  -- A vote that the pool refuses is given up; any other exception goes on.
  abbrev voted : Peer → ℕ → Result (List Message) × Peer → Result (List Message) × Peer
  voted n height (ok sent, n') =
      (ok sent, record n' { voted_targets = add height n'.voted_targets })
  voted n height (err (invalid r), n') = (ok [], n')
  voted n height (err e, n') = (err e, n')

  -- P2PNode.connect
  unfoldable pub connect : Text → ℕ → Peer → Peer
  connect host port n =
      if member (host, port) n.peers then n else record n { peers = n.peers ++ (host, port) ∷ [] }

  -- P2PNode.auto_vote
  unfoldable pub auto_vote : Peer → Result (List Message) × Peer
  unfolding plan_vote submit_tx
  auto_vote n = elim (plan_vote n) [
    | err (invalid r) ↦ (ok [], n)
    | err e ↦ (err e, n)
    | ok none ↦ (ok [], n)
    | ok (some (tx, height)) ↦ voted n height (submit_tx n tx)
  ]

  -- P2PNode.request_sync
  unfoldable pub request_sync : Peer → Message
  request_sync n = get_blocks (chain_of n.service).head.index n.advertise

  module _ (line_of : Json → Text) where
    abbrev produced : Peer → Result Block × Service → Result (List Message) × Peer
    produced n (err e, s) = (err e, record n { service = s })
    produced n (ok b, s) = (
      ok (block_message (encode_block b) ∷ []),
      record n { service = s; seen_block = (remember seen_cap (hash b) n.seen_block).1 },
    )

    -- P2PNode.produce_and_gossip
    unfoldable pub produce_and_gossip : Peer → Json → Result (List Message) × Peer
    produce_and_gossip n timestamp = produced n (produce_block line_of n.service timestamp)

    -- P2PNode.tick: production by the elected validator, and nothing by any other
    unfoldable pub tick : Peer → Json → Result (List Message) × Peer
    unfolding produce_and_gossip
    tick n timestamp = elim n.service.validator [
      | none ↦ (ok [], n)
      | some v ↦ elim (next_validator (chain_of n.service)) [
        | err (invalid r) ↦ (ok [], n)
        | err e ↦ (err e, n)
        | ok elected ↦
            if not (elected == address v) then (ok [], n) else produce_and_gossip n timestamp
      ]
    ]

-- `orphans.pop(parent, [])`
abbrev pub pop_orphans : Text → Peer → List Json × Peer
pop_orphans parent n = (get_or parent [] n.orphans, record n { orphans = erase parent n.orphans })

unfoldable pub orphan_count : Dict Text (List Json) → ℕ
orphan_count [] = 0
orphan_count ((parent, wires) ∷ d) = length wires + orphan_count d

abbrev relayed : Json → Result (List Message) × Peer → Result (List Message) × Peer
relayed wire (ok sent, n) = (ok (block_message wire ∷ sent), n)
relayed wire (err e, n) = (err e, n)

module _ ⦃p : Primitives⦄ (line_of : Json → Text) where
  -- P2PNode._drain_orphans, as a stack of the blocks that wait: the orphans of a block that is
  -- accepted come before the siblings of that block. Each round takes one of them.
  unfoldable pub drain : ℕ → List Json → Peer → Result (List Message) × Peer
  drain zero stack n = (ok [], n)
  drain (suc f) [] n = (ok [], n)
  drain (suc f) (wire ∷ stack) n = elim (decode_block wire) [
    | err e ↦ (err e, n)
    | ok child ↦
        let (answer, s) = receive_block line_of n.service wire in
        let n' : Peer = record n { service = s } in
        let (more, popped) = pop_orphans (hash child) n' in
        elim answer [
          | err (invalid r) ↦ drain f stack n'
          | err e ↦ (err e, n')
          | ok false ↦ drain f stack n'
          | ok true ↦ relayed wire (drain f (more ++ stack) popped)
        ]
  ]

  abbrev buffered : Peer → Block → Json → Peer
  buffered n block wire =
      if ltb (length n.orphans) max_orphans
      then record n {
        orphans =
            put block.previous_hash (get_or block.previous_hash [] n.orphans ++ wire ∷ [])
              n.orphans;
      }
      else n

  -- P2PNode._apply_or_buffer
  unfoldable pub apply_or_buffer : Peer → Block → Json → Result (List Message) × Peer
  unfolding drain orphan_count request_sync
  apply_or_buffer n block wire =
      let (answer, s) = receive_block line_of n.service wire in
      let n' : Peer = record n { service = s } in
      let (more, popped) = pop_orphans (hash block) n' in
      if not (contains block.previous_hash n.service.tree.weight)
      then (ok (request_sync n ∷ []), buffered n block wire)
      else elim answer [
        | err (invalid r) ↦ (ok [], n')
        | err e ↦ (err e, n')
        | ok false ↦ (ok [], n')
        | ok true ↦ relayed wire (drain (orphan_count n'.orphans) more popped)
      ]
