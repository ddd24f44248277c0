-- ===== src/Network/Gossip.antt =====
-- network.Node: the gossiping node. Where the source calls its peers, a method gives the peers to
-- call, by their names: the caller delivers, one after the other.
use mindees_blockchain.Prelude.{
  ℕ, ◌+◌, true, false, Option, none, some, List, [], ◌∷◌, ◌++◌, Text, Text_eq, ◌==◌, leb, ltb,
  if◌then◌else◌,
}
use mathlib.Core.List.{reverse}
use mindees_blockchain.Dict.{member, add}
use mindees_blockchain.Json.{Json, num}
use mindees_blockchain.Primitives.{Primitives}
use mindees_blockchain.Core.Signature.{Wallet}
use mindees_blockchain.Core.Transaction.{txid}
use mindees_blockchain.Core.Block.{Block, hash}
use mindees_blockchain.Network.Codec.{decode_tx, encode_block, decode_block}
use mindees_blockchain.Consensus.State.{PosChain}
use mindees_blockchain.Consensus.Rules.{submit}
use mindees_blockchain.Consensus.Build.{add_block}
use mindees_blockchain.Mempool.{Pool, update, select, max_txs_per_block}
use mindees_blockchain.Mempool
use mindees_blockchain.Result.{Result, ok, err, invalid, ◌>>=◌}

pub record Node : Type 0 where
  pub id : Text
  pub chain : PosChain
  pub pool : Pool
  pub peers : List Text
  pub seen_tx : List Text
  pub seen_block : List Text

-- `for peer in self.peers: if peer is not origin`
unfoldable pub others : Option Text → List Text → List Text
others none peers = peers
others (some origin) [] = []
others (some origin) (a ∷ peers) =
    if a == origin then others (some origin) peers else a ∷ others (some origin) peers

-- Node.connect: each of the two lists the other.
unfoldable pub connect : Node → Node → Node × Node
connect a b = (
  record a { peers = if member b.id a.peers then a.peers else a.peers ++ b.id ∷ [] },
  record b { peers = if member a.id b.peers then b.peers else b.peers ++ a.id ∷ [] },
)

module _ ⦃p : Primitives⦄ where
  -- Node._recv_tx: whom to relay to, and the node. What is invalid is dropped and not relayed.
  unfoldable pub recv_tx : Json → Option Text → Node → Result (List Text) × Node
  unfolding others
  recv_tx wire origin n = elim (decode_tx wire) [
    | err e ↦ (err e, n)
    | ok tx ↦
        let seen : Node = record n { seen_tx = add (txid tx) n.seen_tx } in
        if member (txid tx) n.seen_tx then (ok [], n) else elim (Mempool.add tx n.chain n.pool) [
          | err (invalid r) ↦ (ok [], seen)
          | err e ↦ (err e, seen)
          | ok (new, pool) ↦ (ok (others origin n.peers), record seen { pool = pool })
        ]
  ]

  -- Node._recv_block
  unfoldable pub recv_block : Json → Option Text → Node → Result (List Text) × Node
  unfolding others
  recv_block wire origin n = elim (decode_block wire) [
    | err e ↦ (err e, n)
    | ok block ↦
        let seen : Node = record n { seen_block = add (hash block) n.seen_block } in
        if member (hash block) n.seen_block then (ok [], n) else elim (submit n.chain block) [
          | err (invalid r) ↦ (ok [], seen)
          | err e ↦ (err e, seen)
          | ok c ↦ (ok (others origin n.peers), record seen { chain = c; pool = update c n.pool })
        ]
  ]

  -- Node.produce_block: the block for every peer, and the node
  unfoldable pub produce_block : Wallet → Json → Node → Result (Block × Node)
  produce_block wallet timestamp n = do
    c ← add_block n.chain (select n.chain max_txs_per_block n.pool) wallet timestamp (num 0)
    ok (
      c.head,
      record n { chain = c; pool = update c n.pool; seen_block = add (hash c.head) n.seen_block },
    )

  abbrev encoded_after : ℕ → List Block → List Json
  encoded_after index [] = []
  encoded_after index (b ∷ bs) =
      if ltb index b.index then encode_block b ∷ encoded_after index bs else encoded_after index bs

  -- Node.blocks_after
  unfoldable pub blocks_after : ℕ → Node → List Json
  blocks_after index n = encoded_after index (reverse (n.chain.head ∷ n.chain.older))

  -- The loop of `sync_from`, which an exception leaves with what was applied before it.
  unfoldable pub sync_blocks : List Json → ℕ → Node → Result ℕ × Node
  sync_blocks [] applied n = (ok applied, n)
  sync_blocks (wire ∷ wires) applied n = elim (decode_block wire) [
    | err e ↦ (err e, n)
    | ok block ↦ elim (leb block.index n.chain.head.index) [
      | true ↦ sync_blocks wires applied n
      | false ↦ elim (submit n.chain block) [
        | err e ↦ (err e, n)
        | ok c ↦
            sync_blocks wires (applied + 1)
              (record n { chain = c; seen_block = add (hash block) n.seen_block })
      ]
    ]
  ]

  abbrev pruned : Result ℕ × Node → Result ℕ × Node
  pruned (err e, n) = (err e, n)
  pruned (ok applied, n) = (ok applied, record n { pool = update n.chain n.pool })

  -- Node.sync_from
  unfoldable pub sync_from : Node → Node → Result ℕ × Node
  unfolding blocks_after sync_blocks
  sync_from peer n = pruned (sync_blocks (blocks_after n.chain.head.index peer) 0 n)
