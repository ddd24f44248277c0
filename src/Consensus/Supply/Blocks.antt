-- ===== src/Consensus/Supply/Blocks.antt =====
-- Blocks keep the supply, so the test at the end of `_apply` never fails on a sound chain.
use mindees_blockchain.Prelude.{◌≡◌, refl, List, [], ◌∷◌, Text, Text_eq, arith}
use mindees_blockchain.Dict.{add}
use mindees_blockchain.Primitives.{Primitives}
use mindees_blockchain.Core.Transaction.{Transaction, txid}
use mindees_blockchain.Core.Block.{Block}
use mindees_blockchain.Core.Chain.{apply_txs, apply, begin, submit_block, max_supply_units}
use mindees_blockchain.Consensus.State.{Staking, PosChain, PosWork, supply, total_supply}
use mindees_blockchain.Consensus.Rules.{
  apply_block_pre, snapshot_checkpoint, pos_hooks, check_supply, submit,
}
use mindees_blockchain.Consensus.Supply.Queues.{total-mature}
use mindees_blockchain.Consensus.Supply.Transactions.{Conserves, apply_tx-Conserves}
use mindees_blockchain.Result.{ok, Returns}

module _ ⦃p : Primitives⦄ where
  apply_txs-Conserves :
      (s : Staking) (block : Block) (seen : List Text) (txs : List Transaction) (w : PosWork)
      → Conserves w (apply_txs pos_hooks s block seen txs w)
  unfolding apply_txs
  apply_txs-Conserves s block seen [] w = refl
  apply_txs-Conserves s block seen (tx ∷ txs) w = grind (
    arith,
    apply_tx-Conserves s.config tx block w,
    apply_txs-Conserves s block (add (txid tx) seen) txs,
  )

  -- Maturing queues and taking a snapshot move no unit.
  supply-begin : (c : PosChain) (block : Block) → supply (begin pos_hooks c block) ≡ total_supply c
  unfolding begin apply_block_pre snapshot_checkpoint supply total_supply
  supply-begin c block = ground (arith, total-mature block.index c.self.state.unbonding c.balances)

  -- What the transactions of a block leave passes the supply test if the chain before it did.
  supply_check_passes :
      (c : PosChain) (block : Block) (txs : List Transaction)
      → total_supply c ≡ max_supply_units
      → Returns
          (λ w. check_supply w ≡ ok tt)
          (apply_txs pos_hooks c.self block [] txs (begin pos_hooks c block))
  unfolding check_supply
  supply_check_passes c block txs h = ground (
    arith,
    supply-begin c block,
    apply_txs-Conserves c.self block [] txs (begin pos_hooks c block),
  )

  pub submit_supply :
      (c : PosChain) (block : Block)
      → Returns (λ c'. total_supply c' ≡ total_supply c) (submit c block)
  unfolding submit submit_block apply total_supply supply
  submit_supply c block = ground (
    arith,
    supply-begin c block,
    apply_txs-Conserves c.self block [] block.transactions (begin pos_hooks c block),
  )
