-- ===== src/Consensus/Linked.antt =====
-- Every chain that grows from a genesis is linked block by block, and heights count its blocks.
use mindees_blockchain.Prelude.{◌≡◌, true, Text_eq, arith, length, text_eq_iff}
use mindees_blockchain.Primitives.{Primitives}
use mindees_blockchain.Core.Block.{Block, post_init}
use mindees_blockchain.Core.Chain.{is_valid_chain, init_chain, genesis_block}
use mindees_blockchain.Core.Chain.Steps.{submit_block-Accepted}
use mindees_blockchain.Consensus.State.{PosChain}
use mindees_blockchain.Consensus.Genesis.{GenesisArgs, init}
use mindees_blockchain.Consensus.Reach.{Reach, Reach-keeps}
use mindees_blockchain.Consensus.Rules.{pos_hooks, submit}
use mindees_blockchain.Result.{ok, Returns}

-- The chain passes `is_valid_chain`, and the height of its head is the number of blocks below it.
abbrev pub IsLinked : ⦃p : Primitives⦄ → PosChain → Type 0
IsLinked c = (is_valid_chain c ≡ true) × (c.head.index ≡ length c.older)

module _ ⦃p : Primitives⦄ where
  genesis_index : (timestamp : _) → Returns (λ b. b.index ≡ 0) (genesis_block timestamp)
  unfolding genesis_block post_init
  genesis_index timestamp = ground arith

  init-IsLinked : (g : GenesisArgs) → Returns IsLinked (init g)
  unfolding init init_chain is_valid_chain
  init-IsLinked g = grind (arith, genesis_index)

  keeps_IsLinked :
      (d e : PosChain) (block : Block) → submit d block ≡ ok e → IsLinked d → IsLinked e
  unfolding submit is_valid_chain
  keeps_IsLinked d e block s h =
      let a = submit_block-Accepted pos_hooks d block s in
      ground
        (arith, a.result, a.parent, a.height, text_eq_iff block.previous_hash block.previous_hash)

  -- From an accepted genesis on, the chain passes its own validity test and the height of its head
  -- counts the blocks below it.
  pub Reach-IsLinked : (g : GenesisArgs) {c d : PosChain} → init g ≡ ok c → Reach c d → IsLinked d
  Reach-IsLinked g start r = Reach-keeps IsLinked keeps_IsLinked r (ground (arith, init-IsLinked g))
