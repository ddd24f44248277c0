-- ===== src/ForkChoice/Finality.antt =====
-- What is final stays final: no block lowers the finalized height of the tree.
use mindees_blockchain.Prelude.{◌≤◌, ◌≡◌, false, Bool, arith, Text_eq}
use mindees_blockchain.Dict.{contains}
use mindees_blockchain.Primitives.{Primitives}
use mindees_blockchain.Core.Block.{Block, hash}
use mindees_blockchain.Consensus.State.{PosChain}
use mindees_blockchain.ForkChoice.{
  BlockTree, store_block, advance_frontier, update_head, choose_head, finish, validate, add_block,
}
use mindees_blockchain.Result.{Result, ok, err, Returns}

module _ ⦃p : Primitives⦄ where
  update_head_final :
      (tree : BlockTree)
      → Returns (λ t. t.finalized_height ≡ tree.finalized_height) (update_head tree)
  unfolding update_head
  update_head_final tree = grind arith

  choose_head_final :
      (before : BlockTree) (block : Block) (tree : BlockTree)
      → Returns (λ t. t.finalized_height ≡ tree.finalized_height) (choose_head before block tree)
  unfolding choose_head
  choose_head_final before block tree = ground (arith, update_head_final tree)

  advance_frontier_mono :
      (tree : BlockTree) (c : PosChain)
      → Returns (λ t. tree.finalized_height ≤ t.finalized_height) (advance_frontier tree c)
  unfolding advance_frontier
  advance_frontier_mono tree c = ground arith

  finish_mono :
      (before : BlockTree) (block : Block) (stored : BlockTree) (c : PosChain)
      → stored.finalized_height ≤ (finish before block stored c).1.finalized_height
  unfolding finish
  finish_mono before block stored c =
      grind (arith, advance_frontier_mono stored c, choose_head_final before block)

  validate_final :
      (tree : BlockTree) (block : Block)
      → Returns (λ r. r.0.finalized_height ≡ tree.finalized_height) (validate tree block)
  unfolding validate store_block
  validate_final tree block = grind arith

  unfoldable pub settled :
      BlockTree → Block → Result (BlockTree × PosChain) → Result Bool × BlockTree
  settled tree block (err e) = (err e, tree)
  settled tree block (ok (stored, c)) = finish tree block stored c

  settled_mono :
      (tree : BlockTree) (block : Block) (r : Result (BlockTree × PosChain))
      → Returns (λ v. v.0.finalized_height ≡ tree.finalized_height) r
      → tree.finalized_height ≤ (settled tree block r).1.finalized_height
  unfolding settled
  settled_mono tree block (err e) h = omega arith
  settled_mono tree block (ok (stored, c)) h = omega (arith, h, finish_mono tree block stored c)

  pub add_block_new :
      (tree : BlockTree) (block : Block)
      → contains (hash block) tree.weight ≡ false
      → add_block tree block ≡ settled tree block (validate tree block)
  unfolding add_block settled
  add_block_new tree block h = ground arith

  -- Whatever block comes, accepted or refused, the finalized height of the tree does not fall.
  pub finalized_height-add_block :
      (tree : BlockTree) (block : Block)
      → tree.finalized_height ≤ (add_block tree block).1.finalized_height
  unfolding add_block
  finalized_height-add_block tree block = ground (
    arith,
    add_block_new tree block,
    settled_mono tree block (validate tree block) (validate_final tree block),
  )
