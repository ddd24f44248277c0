-- ===== src/Consensus/Typed.antt =====
-- Transaction.is_valid along a chain: the types of what its blocks hold.
use mindees_blockchain.Prelude.{◌≡◌, List, [], ◌∷◌, Text, All, arith, subst, sym, Text_eq}
use mindees_blockchain.Dict.{add}
use mindees_blockchain.Primitives.{Primitives}
use mindees_blockchain.Core.Transaction.{Transaction, txid}
use mindees_blockchain.Core.Transaction.Typed.{IsTyped, is_valid-IsTyped}
use mindees_blockchain.Core.Block.{Block, post_init}
use mindees_blockchain.Core.Chain.{apply_txs, begin, init_chain, genesis_block}
use mindees_blockchain.Core.Chain.Steps.{apply_txs-Round, submit_block-Accepted}
use mindees_blockchain.Consensus.State.{PosChain, PosWork, Staking}
use mindees_blockchain.Consensus.Genesis.{GenesisArgs, init}
use mindees_blockchain.Consensus.Reach.{Reach, Reach-keeps}
use mindees_blockchain.Consensus.Rules.{pos_hooks, submit}
use mindees_blockchain.Result.{ok, Returns}

-- All transactions of all blocks.
abbrev pub AreTyped : ⦃p : Primitives⦄ → PosChain → Type 0
AreTyped c = All (λ b. All IsTyped b.transactions) (c.head ∷ c.older)

module _ ⦃p : Primitives⦄ where
  apply_txs-IsTyped :
      (self : Staking) (block : Block) (seen : List Text) (txs : List Transaction) (w : PosWork)
      {w' : PosWork}
      → apply_txs pos_hooks self block seen txs w ≡ ok w'
      → All IsTyped txs
  apply_txs-IsTyped self block seen [] w h = tt
  apply_txs-IsTyped self block seen (tx ∷ txs) w h =
      let r = apply_txs-Round pos_hooks self block seen tx txs w h in
      (
        is_valid-IsTyped tx r.valid,
        apply_txs-IsTyped self block (add (txid tx) seen) txs r.middle r.rest,
      )

  submit-AreTyped :
      (c d : PosChain) (block : Block) → submit c block ≡ ok d → AreTyped c → AreTyped d
  unfolding submit
  submit-AreTyped c d block h typed =
      let a = submit_block-Accepted pos_hooks c block h in
      rw a.result (
        apply_txs-IsTyped c.self block [] block.transactions (begin pos_hooks c block) a.run,
        typed,
      )

  genesis_empty : (timestamp : _) → Returns (λ b. b.transactions ≡ []) (genesis_block timestamp)
  unfolding genesis_block post_init
  genesis_empty timestamp = ground arith

  init_blocks :
      (g : GenesisArgs) → Returns (λ c. (c.head.transactions ≡ []) × (c.older ≡ [])) (init g)
  unfolding init init_chain
  init_blocks g = ground (arith, genesis_empty g.timestamp)

  -- In every chain that grows from an accepted genesis, each transaction of each block has natural
  -- numbers as its amount, fee and nonce and a text as its evidence, moves nothing exactly if it is a
  -- slash or a vote, and carries a key that owns the sender's address and a signature of the
  -- transaction by that key.
  pub Reach-AreTyped : (g : GenesisArgs) {c d : PosChain} → init g ≡ ok c → Reach c d → AreTyped d
  Reach-AreTyped g {c} start r =
      let (empty, young) : (c.head.transactions ≡ []) × (c.older ≡ []) =
        rw start at (init_blocks g) in
      Reach-keeps AreTyped submit-AreTyped r (
        subst (All IsTyped) (sym empty) tt,
        subst (All (λ b. All IsTyped b.transactions)) (sym young) tt,
      )
