-- ===== src/Service.antt =====
-- node.NodeService: one node over the block tree, the mempool and the store. A method gives its
-- result or exception and the node afterwards.
use mindees_blockchain.Prelude.{
  ℕ, zero, suc, ◌+◌, Bool, true, false, Option, none, some, List, [], ◌∷◌, Text, Text_eq, ◌==◌, not,
  if◌then◌else◌, length,
}
use mathlib.Core.List.{reverse}
use mindees_blockchain.Dict.{get_or}
use mindees_blockchain.Json.{Json, num}
use mindees_blockchain.Primitives.{Primitives}
use mindees_blockchain.Core.Signature.{Wallet, address}
use mindees_blockchain.Core.Transaction.{Transaction, txid}
use mindees_blockchain.Core.Block.{Block, hash}
use mindees_blockchain.Network.Codec.{decode_tx, encode_block, decode_block}
use mindees_blockchain.Consensus.State.{PosChain, total_supply}
use mindees_blockchain.Core.Chain.{max_supply_units}
use mindees_blockchain.Consensus.Genesis.{GenesisArgs}
use mindees_blockchain.Consensus.Queries.{stake_of, locked_of, spendable_of}
use mindees_blockchain.Consensus.Rules.{next_validator}
use mindees_blockchain.Consensus.Build.{seal_block}
use mindees_blockchain.Mempool.{Pool, add, update, select, max_txs_per_block}
use mindees_blockchain.ForkChoice.{BlockTree, init_tree, add_block}
use mindees_blockchain.Storage.{append, committed_lines, read_block}
use mindees_blockchain.Result.{
  Result, ok, err, invalid, or_raise, raise_if, ◌>>=◌, ◌>>◌, no_validator, not_our_turn, no_block,
}

pub record Service : Type 0 where
  pub tree : BlockTree
  pub file : Text
  pub pool : Pool
  pub validator : Option Wallet
  pub autoproduce : Bool

-- What `info` reports, but for the name, the symbol and the decimals of the coin.
pub record Info : Type 0 where
  pub height : ℕ
  pub head : Text
  pub finalized_height : ℕ
  pub finalized : Text
  pub supply : ℕ
  pub max_supply : ℕ
  pub mempool : ℕ
  pub next_validator : Option Text

-- NodeService.chain
abbrev pub chain_of : Service → PosChain
chain_of s = s.tree.canonical

module _ ⦃p : Primitives⦄ where
  abbrev tree_after : Result Bool × BlockTree → Result BlockTree
  tree_after (err e, tree) = err e
  tree_after (ok new, tree) = ok tree

  -- The loop of `__init__` over the stored blocks.
  unfoldable pub rebuild : BlockTree → List Text → Result BlockTree
  rebuild tree [] = ok tree
  rebuild tree (line ∷ lines) = do
    block ← read_block line
    tree' ← tree_after (add_block tree block)
    rebuild tree' lines

  -- NodeService.__init__, over genesis arguments already read
  unfoldable pub boot :
      GenesisArgs → Text → Option Wallet → Bool → Option (Text × ℕ) → Result Service
  unfolding rebuild
  boot args file validator autoproduce checkpoint = do
    tree ← init_tree args checkpoint
    tree ← rebuild tree (committed_lines file)
    ok (record {
      tree = tree;
      file = file;
      pool = [];
      validator = validator;
      autoproduce = autoproduce;
    })

  -- NodeService._is_our_turn
  unfoldable pub is_our_turn : Service → Result Bool
  is_our_turn s = elim s.validator [
    | none ↦ ok false
    | some w ↦ next_validator (chain_of s) >>= λ next. ok (next == address w)
  ]

  -- NodeService._safe_next_validator
  unfoldable pub safe_next_validator : Service → Result (Option Text)
  safe_next_validator s = elim (next_validator (chain_of s)) [
    | ok a ↦ ok (some a)
    | err (invalid r) ↦ ok none
    | err e ↦ err e
  ]

  abbrev block_at : ℕ → List Block → Option Block
  block_at i [] = none
  block_at zero (b ∷ bs) = some b
  block_at (suc i) (b ∷ bs) = block_at i bs

  -- NodeService.get_block
  unfoldable pub get_block : ℕ → Service → Result Json
  get_block index s = do
    b ←
        or_raise (block_at index (reverse ((chain_of s).head ∷ (chain_of s).older)))
          (invalid no_block)
    ok (encode_block b)

  -- NodeService.balance and NodeService.nonce
  unfoldable pub balance : Text → Service → ℕ
  balance a s = get_or a 0 (chain_of s).balances

  unfoldable pub nonce : Text → Service → ℕ
  nonce a s = get_or a 0 (chain_of s).nonces

  -- NodeService.stake, NodeService.spendable and NodeService.locked, which looks at the head
  unfoldable pub stake : Text → Service → ℕ
  stake a s = stake_of a (chain_of s)

  unfoldable pub spendable : Text → Service → ℕ
  spendable a s = spendable_of a (chain_of s)

  unfoldable pub locked : Text → Service → ℕ
  locked a s = locked_of a (chain_of s).head.index (chain_of s)

  -- NodeService.info
  unfoldable pub info : Service → Result Info
  unfolding safe_next_validator
  info s = do
    next ← safe_next_validator s
    ok (record {
      height = (chain_of s).head.index;
      head = hash (chain_of s).head;
      finalized_height = s.tree.finalized_height;
      finalized = s.tree.finalized_hash;
      supply = total_supply (chain_of s);
      max_supply = max_supply_units;
      mempool = length s.pool;
      next_validator = next;
    })

  module _ (line_of : Json → Text) where
    -- A block that the tree took is written, and the pool is pruned by the new canonical chain.
    unfoldable pub record_block : Service → BlockTree → Block → Service
    record_block s tree block = record s {
      tree = tree;
      file = append line_of s.file block;
      pool = update tree.canonical s.pool;
    }

    -- The steps of `produce_block` before the tree sees the block.
    unfoldable pub prepare_block : Service → Json → Result Block
    unfolding is_our_turn
    prepare_block s timestamp = do
      w ← or_raise s.validator (invalid no_validator)
      ours ← is_our_turn s
      raise_if (not ours) not_our_turn
      seal_block (hash (chain_of s).head) ((chain_of s).head.index + 1) w
          (select (chain_of s) max_txs_per_block s.pool) timestamp (num 0)

    unfoldable pub publish : Service → Block → Result Block × Service
    unfolding record_block
    publish s block =
        let (answer, tree) = add_block s.tree block in
        elim answer [
          | err e ↦ (err e, record s { tree = tree })
          | ok new ↦ (ok block, record_block s tree block)
        ]

    -- NodeService.produce_block, with the timestamp of the parameters or the clock
    unfoldable pub produce_block : Service → Json → Result Block × Service
    unfolding prepare_block publish
    produce_block s timestamp = elim (prepare_block s timestamp) [
      | err e ↦ (err e, s)
      | ok block ↦ publish s block
    ]

    unfoldable pub accept_block : Service → Block → Result Bool × Service
    unfolding record_block
    accept_block s block =
        let (answer, tree) = add_block s.tree block in
        elim answer [
          | err e ↦ (err e, record s { tree = tree })
          | ok false ↦ (ok false, record s { tree = tree })
          | ok true ↦ (ok true, record_block s tree block)
        ]

    -- NodeService.receive_block; the answer keeps `accepted` only
    unfoldable pub receive_block : Service → Json → Result Bool × Service
    unfolding accept_block
    receive_block s wire = elim (decode_block wire) [
      | err e ↦ (err e, s)
      | ok block ↦ accept_block s block
    ]

    abbrev mined : Transaction → Result Block × Service → Result (Text × Option Block) × Service
    mined tx (err e, s) = (err e, s)
    mined tx (ok block, s) = (ok (txid tx, some block), s)

    -- A node that produces blocks by itself seals one at once where it is its turn.
    unfoldable pub mine : Service → Transaction → Json → Result (Text × Option Block) × Service
    unfolding produce_block
    mine s tx timestamp =
        if not s.autoproduce then (ok (txid tx, none), s) else elim (is_our_turn s) [
          | err e ↦ (err e, s)
          | ok false ↦ (ok (txid tx, none), s)
          | ok true ↦ mined tx (produce_block s timestamp)
        ]

    -- NodeService.submit_tx
    unfoldable pub submit_tx : Service → Json → Json → Result (Text × Option Block) × Service
    unfolding mine
    submit_tx s wire timestamp = elim (decode_tx wire) [
      | err e ↦ (err e, s)
      | ok tx ↦ elim (add tx (chain_of s) s.pool) [
        | err e ↦ (err e, s)
        | ok (new, pool) ↦ mine (record s { pool = pool }) tx timestamp
      ]
    ]
