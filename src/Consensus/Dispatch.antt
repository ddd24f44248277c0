-- ===== src/Consensus/Dispatch.antt =====
-- Which branch of `_apply_tx` a transaction to a reserved recipient takes.
use mindees_blockchain.Prelude.{◌≡◌, text_eq}
use mindees_blockchain.Primitives.{Primitives}
use mindees_blockchain.Core.Transaction.{Transaction, slash_sentinel, vote_sentinel}
use mindees_blockchain.Core.Block.{Block}
use mindees_blockchain.Consensus.State.{Config, PosWork}
use mindees_blockchain.Consensus.Vote.{apply_vote}
use mindees_blockchain.Consensus.Slash.{apply_slash}
use mindees_blockchain.Consensus.Rules.{apply_tx}

module _ ⦃p : Primitives⦄ (cfg : Config) (tx : Transaction) (block : Block) (w : PosWork) where
  pub apply_tx-vote :
      tx.recipient ≡ vote_sentinel → apply_tx cfg tx block w ≡ apply_vote cfg tx block w
  unfolding apply_tx text_eq
  apply_tx-vote e = simp e

  pub apply_tx-slash :
      tx.recipient ≡ slash_sentinel → apply_tx cfg tx block w ≡ apply_slash cfg tx block w
  unfolding apply_tx text_eq
  apply_tx-slash e = simp e
