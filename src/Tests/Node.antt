-- ===== src/Tests/Node.antt =====
-- The theorems on the mempool, the block tree, the store and the memory of a node.
use mindees_blockchain.Prelude.{◌≤◌, ◌≡◌, refl, [], ◌∷◌, ◌++◌, text, Text_eq}
use mindees_blockchain.Mempool.{ready_run}
use mindees_blockchain.Mempool.Selection.{IsRun, ready_run-IsRun}
use mindees_blockchain.ForkChoice.{add_block}
use mindees_blockchain.ForkChoice.Finality.{finalized_height-add_block}
use mindees_blockchain.Storage.{load}
use mindees_blockchain.Storage.Reload.{save, after_genesis, load-save}
use mindees_blockchain.Consensus.Reach.{here, next}
use mindees_blockchain.Result.{ok}
use mindees_blockchain.Tests.Blocks.Saved.{block₁_Reads}
use mindees_blockchain.Tests.Toy.{toy, write}
use mindees_blockchain.Tests.Blocks.Tree.{young_tree}
use mindees_blockchain.Tests.Blocks.{genesis_args, start, first, chain₁, block₁, vote, bond}

ready_run-IsRun_example : IsRun 3 0 10 (vote ∷ bond ∷ []) (ready_run 3 0 10 (vote ∷ bond ∷ []))
ready_run-IsRun_example = ready_run-IsRun 3 0 10 (vote ∷ bond ∷ [])

finalized_height-add_block_example :
    young_tree.finalized_height ≤ (add_block young_tree block₁).1.finalized_height
finalized_height-add_block_example = finalized_height-add_block young_tree block₁

load-save_example : load genesis_args (save write (after_genesis chain₁) ++ text "{x") ≡ ok chain₁
load-save_example =
    load-save write genesis_args (text "{x") start (next block₁ here first) block₁_Reads
      (refl, (refl, tt)) (refl, (refl, tt))
