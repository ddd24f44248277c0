-- ===== src/ForkChoice/Validated.antt =====
-- What `add_block` knows of a block that it stores: its parent replays, and the block fits there.
use mindees_blockchain.Prelude.{
  ℕ, ◌≡◌, ◌≢◌, true, false, Text_eq, arith, sym, ◌==◌, text_eq_iff, Bool-cases, inl, inr, refl, ap,
  ◌∙◌, if◌then◌else◌,
}
use mindees_blockchain.Dict.{contains}
use mindees_blockchain.Primitives.{Primitives}
use mindees_blockchain.Core.Block.{Block, hash}
use mindees_blockchain.Consensus.State.{PosChain}
use mindees_blockchain.Consensus.Queries.{stake_of}
use mindees_blockchain.Consensus.Rules.{submit}
use mindees_blockchain.ForkChoice.{
  BlockTree, chain_at, store_block, parent_chain, check_block, validate,
}
use mindees_blockchain.ForkChoice.Branches.{chain_at-Extends}
use mindees_blockchain.ForkChoice.Sound.{IsSound}
use mindees_blockchain.ForkChoice.Stored.{store-Extends, chain_at-store}
use mindees_blockchain.Result.{ok, Returns, >>=-eq-ok}

module _ ⦃p : Primitives⦄ where
  -- In a sound tree the chain against which a block is validated is the replay of its parent, also
  -- where the fast path takes the canonical chain from memory.
  pub parent_chain-chain_at :
      (tree : BlockTree) (block : Block)
      → IsSound tree
      → parent_chain tree block ≡ chain_at tree block.previous_hash
  unfolding parent_chain
  parent_chain-chain_at tree block s = elim (Bool-cases (block.previous_hash == tree.head_hash)) [
    | inl e ↦ rw e (
        sym
          (ap (chain_at tree) ((text_eq_iff block.previous_hash tree.head_hash).0 e) ∙ s.canonical))
    | inr e ↦ rw e refl
  ]

  check_block_known :
      (tree : BlockTree) (block : Block)
      → Returns (λ _. contains block.previous_hash tree.weight ≡ true) (check_block tree block)
  unfolding check_block
  check_block_known tree block = ground arith

  pub record Validated (tree : BlockTree) (block : Block) (stored : BlockTree) (after : PosChain)
      : Type 0 where
    pub before : PosChain
    pub height : ℕ
    pub parent : parent_chain tree block ≡ ok before
    pub applied : submit before block ≡ ok after
    pub result : stored ≡ store_block tree block height (stake_of block.validator before) after

  pub validate-Validated :
      (tree : BlockTree) (block : Block) (stored : BlockTree) (after : PosChain)
      → validate tree block ≡ ok (stored, after)
      → Validated tree block stored after
  unfolding validate
  validate-Validated tree block stored after e =
      let (height, checked, rest) = >>=-eq-ok (check_block tree block) _ e in
      let (before, parent, rest) = >>=-eq-ok (parent_chain tree block) _ rest in
      let (after', applied, done) = >>=-eq-ok (submit before block) _ rest in
      record {
        before = before;
        height = height;
        parent = parent;
        applied = ground (arith, applied, done);
        result = ground (arith, done);
      }

  stored_chain :
      (tree : BlockTree) (block : Block) (height stake : ℕ) (c : PosChain)
      → (store_block tree block height stake c).canonical
        ≡ (if block.previous_hash == tree.head_hash then c else tree.canonical)
  unfolding store_block
  stored_chain tree block height stake c = refl

  -- The tree with a block that was just stored: the canonical chain is that of the block where it
  -- extends the head, and still that of the head where it does not.
  pub stored_canonical :
      (tree : BlockTree) (block : Block) (height stake : ℕ) (c c' : PosChain)
      → IsSound tree
      → contains (hash block) tree.weight ≡ false
      → parent_chain tree block ≡ ok c
      → submit c block ≡ ok c'
      → let stored = store_block tree block height stake c' in
        chain_at stored
          (if block.previous_hash == tree.head_hash then hash block else tree.head_hash)
        ≡ ok stored.canonical
  stored_canonical tree block height stake c c' s new parent applied =
      let e =
        store-Extends tree block height stake c' (s.branches.no_parent (hash block) new)
          (s.branches.no_block (hash block) new) in
      let before = sym (parent_chain-chain_at tree block s) ∙ parent in
      let other : hash block ≢ tree.genesis_hash =
        λ same. ground (arith, s.branches.genesis, new, ap (λ x. contains x tree.weight) same) in
      let top =
        chain_at-store tree block height stake c c' (s.branches.no_parent (hash block) new)
          (s.branches.no_block (hash block) new) other before applied in
      elim (Bool-cases (block.previous_hash == tree.head_hash)) [
        | inl same ↦
            rw same (top ∙ ap ok (sym (stored_chain tree block height stake c' ∙ rw same refl)))
        | inr apart ↦ rw apart (
            chain_at-Extends tree (store_block tree block height stake c') tree.head_hash
              tree.canonical e s.canonical
            ∙ ap ok (sym (stored_chain tree block height stake c' ∙ rw apart refl)))
      ]
