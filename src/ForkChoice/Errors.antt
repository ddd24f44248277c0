-- ===== src/ForkChoice/Errors.antt =====
-- What an exception of `add_block` leaves behind.
use mindees_blockchain.Prelude.{
  ℕ, ◌≡◌, ◌⊎◌, inl, inr, true, false, refl, Text, Text_eq, arith, Bool-cases, ◌∙◌, sym, ap,
  if◌then◌else◌, ◌==◌, beq_refl,
}
use mindees_blockchain.Dict.{contains, contains-put}
use mindees_blockchain.Primitives.{Primitives}
use mindees_blockchain.Core.Block.{Block, hash}
use mindees_blockchain.Consensus.State.{PosChain}
use mindees_blockchain.Consensus.Queries.{stake_of}
use mindees_blockchain.Consensus.Rules.{submit}
use mindees_blockchain.ForkChoice.{
  BlockTree, store_block, parent_chain, validate, advance_frontier, finish, add_block,
}
use mindees_blockchain.ForkChoice.Validated.{Validated, validate-Validated}
use mindees_blockchain.ForkChoice.Finality.{settled, add_block_new}
use mindees_blockchain.Result.{Result, Error, ok, err}

module _ ⦃p : Primitives⦄ where
  -- The block is kept: the tree knows it, and the chain of its parent accepts it.
  pub record Kept (tree : BlockTree) (block : Block) (after : BlockTree) : Type 0 where
    pub known : contains (hash block) after.weight ≡ true
    pub older : (h : Text) → contains h tree.weight ≡ true → contains h after.weight ≡ true
    pub parent : PosChain
    pub chain : PosChain
    pub replayed : parent_chain tree block ≡ ok parent
    pub accepted : submit parent block ≡ ok chain

  finish_keeps :
      (before : BlockTree) (block : Block) (stored : BlockTree) (c : PosChain) (e : Error)
      (after : BlockTree)
      → finish before block stored c ≡ (err e, after)
      → after.weight ≡ stored.weight
  unfolding finish advance_frontier
  finish_keeps before block stored c e after h = ground arith

  store-contains :
      (t : BlockTree) (block : Block) (height stake : ℕ) (c : PosChain) (h : Text)
      → contains h (store_block t block height stake c).weight
        ≡ (if h == hash block then true else contains h t.weight)
  unfolding store_block
  store-contains t block height stake c h = contains-put h (hash block) _ t.weight

  stored-Kept :
      (tree : BlockTree) (block : Block) (stored after : BlockTree) (c : PosChain)
      → Validated tree block stored c
      → after.weight ≡ stored.weight
      → Kept tree block after
  stored-Kept tree block stored after c v same =
      let stake = stake_of block.validator v.before in
      let weights = same ∙ ap (λ (t : BlockTree). t.weight) v.result in
      let keys = store-contains tree block v.height stake c in
      record {
        known = rw weights (keys (hash block) ∙ rw (beq_refl (hash block)) refl);
        older = λ h m. rw weights (ground (arith, keys h, m));
        parent = v.before;
        chain = c;
        replayed = v.parent;
        accepted = v.applied;
      }

  settled_raises :
      (tree : BlockTree) (block : Block) (r : Result (BlockTree × PosChain)) (e : Error)
      (after : BlockTree)
      → validate tree block ≡ r
      → settled tree block r ≡ (err e, after)
      → (after ≡ tree) ⊎ Kept tree block after
  unfolding settled
  settled_raises tree block (err x) e after v h = inl (cc h)
  settled_raises tree block (ok (stored, c)) e after v h = inr (
      stored-Kept tree block stored after c (validate-Validated tree block stored c v)
        (finish_keeps tree block stored c e after h))

  known_returns :
      (tree : BlockTree) (block : Block)
      → contains (hash block) tree.weight ≡ true
      → add_block tree block ≡ (ok false, tree)
  unfolding add_block
  known_returns tree block known = rw known refl

  -- If `add_block` raises, then either the tree is as it was before the call, or the block has been
  -- stored all the same: the tree knows it and all that it knew before, and the chain of the parent
  -- accepts the block.
  pub add_block_raises :
      (tree : BlockTree) (block : Block) (e : Error) (after : BlockTree)
      → add_block tree block ≡ (err e, after)
      → (after ≡ tree) ⊎ Kept tree block after
  add_block_raises tree block e after h = elim (Bool-cases (contains (hash block) tree.weight)) [
    | inl known ↦ absurd (cc (h, known_returns tree block known))
    | inr new ↦
        settled_raises tree block (validate tree block) e after refl
          (sym (add_block_new tree block new) ∙ h)
  ]
