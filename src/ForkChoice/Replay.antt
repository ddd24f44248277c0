-- ===== src/ForkChoice/Replay.antt =====
-- The trees that a node can reach: their canonical chain is the replay of their head.
use mindees_blockchain.Prelude.{
  ℕ, ◌≡◌, true, false, Bool, Option, Text, Text_eq, arith, sym, ◌==◌, Bool-cases, inl, inr, refl,
  ap, ◌∙◌, subst, if◌then◌else◌,
}
use mindees_blockchain.Dict.{contains}
use mindees_blockchain.Primitives.{Primitives}
use mindees_blockchain.Core.Block.{Block, hash}
use mindees_blockchain.Consensus.State.{PosChain}
use mindees_blockchain.Consensus.Genesis.{GenesisArgs}
use mindees_blockchain.Consensus.Queries.{stake_of}
use mindees_blockchain.ForkChoice.{
  BlockTree, init_tree, chain_at, store_block, parent_chain, validate, advance_frontier,
  choose_head, update_head, finish, add_block, or_keep,
}
use mindees_blockchain.ForkChoice.Branches.{chain_at-Extends}
use mindees_blockchain.ForkChoice.Sound.{
  HasBranches, IsSound, SameBranches, SameBranches-HasBranches, SameBranches-Extends,
  store-HasBranches, advance_frontier-SameBranches, rehead-IsSound, init_tree-IsSound,
  update_head-IsSound,
}
use mindees_blockchain.ForkChoice.Validated.{
  Validated, validate-Validated, stored_canonical, parent_chain-chain_at,
}
use mindees_blockchain.ForkChoice.Finality.{settled, add_block_new}
use mindees_blockchain.Result.{Result, ok, err, Returns}

module _ ⦃p : Primitives⦄ where
  choose_head_fork :
      (before : BlockTree) (block : Block) (t : BlockTree)
      → (block.previous_hash == before.head_hash) ≡ false
      → choose_head before block t ≡ update_head t
  unfolding choose_head
  choose_head_fork before block t e = ground arith

  choose_head_extends :
      (before : BlockTree) (block : Block) (t : BlockTree)
      → (block.previous_hash == before.head_hash) ≡ true
      → choose_head before block t ≡ ok (record t { head_hash = hash block })
  unfolding choose_head
  choose_head_extends before block t e = ground arith

  choose_head-IsSound :
      (before : BlockTree) (block : Block) (t : BlockTree)
      → HasBranches t
      → t.head_hash ≡ before.head_hash
      → chain_at t
          (if block.previous_hash == before.head_hash then hash block else before.head_hash)
        ≡ ok t.canonical
      → Returns IsSound (choose_head before block t)
  choose_head-IsSound before block t b head h =
      elim (Bool-cases (block.previous_hash == before.head_hash)) [
        | inl e ↦ rw (choose_head_extends before block t e) (
            rehead-IsSound t (record t { head_hash = hash block }) b
              (record { args = refl; genesis = refl; parent = refl; blocks = refl; weight = refl })
              (rw e at h))
        | inr e ↦ rw (choose_head_fork before block t e) (
            update_head-IsSound t
              (record { branches = b; canonical = ap (chain_at t) head ∙ rw e at h }))
      ]

  -- A call that succeeds leaves a sound tree.
  abbrev Sound : Result Bool × BlockTree → Type 0
  Sound r = Returns (λ _. IsSound r.1) r.0

  kept-Sound : (t : BlockTree) (r : Result BlockTree) → Returns IsSound r → Sound (or_keep t r)
  kept-Sound t (err e) h = tt
  kept-Sound t (ok t') h = h

  outcome : BlockTree → Block → BlockTree → Result BlockTree → Result Bool × BlockTree
  outcome before block stored (err e) = (err e, stored)
  outcome before block stored (ok t) = or_keep t (choose_head before block t)

  finish-outcome :
      (before : BlockTree) (block : Block) (stored : BlockTree) (c : PosChain)
      → finish before block stored c ≡ outcome before block stored (advance_frontier stored c)
  unfolding finish outcome
  finish-outcome before block stored c = grind arith

  outcome-Sound :
      (before : BlockTree) (block : Block) (stored : BlockTree) (r : Result BlockTree)
      → HasBranches stored
      → stored.head_hash ≡ before.head_hash
      → chain_at stored
          (if block.previous_hash == before.head_hash then hash block else before.head_hash)
        ≡ ok stored.canonical
      → Returns
          (λ t.
            SameBranches stored t
            × (t.canonical ≡ stored.canonical)
            × (t.head_hash ≡ stored.head_hash))
          r
      → Sound (outcome before block stored r)
  unfolding outcome
  outcome-Sound before block stored (err e) b head h same = tt
  outcome-Sound before block stored (ok t) b head h (same, chain, hd) =
      kept-Sound t (choose_head before block t) (
        choose_head-IsSound before block t (SameBranches-HasBranches stored t same b) (hd ∙ head) (
          chain_at-Extends stored t _ stored.canonical (SameBranches-Extends stored t same) h
          ∙ ap ok (sym chain)))

  Validated-Sound :
      (tree : BlockTree) (block : Block) (stored : BlockTree) (after : PosChain)
      → IsSound tree
      → contains (hash block) tree.weight ≡ false
      → Validated tree block stored after
      → Sound (finish tree block stored after)
  Validated-Sound tree block stored after s new v =
      let stake = stake_of block.validator v.before in
      let fresh = store_block tree block v.height stake after in
      let before = sym (parent_chain-chain_at tree block s) ∙ v.parent in
      let branches =
        store-HasBranches tree block v.height stake v.before after s.branches new before
          v.applied in
      let sound =
        outcome-Sound tree block fresh (advance_frontier fresh after) branches
          (unfold store_block in refl)
          (stored_canonical tree block v.height stake v.before after s new v.parent v.applied)
          (advance_frontier-SameBranches fresh after) in
      subst (λ x. Sound (finish tree block x after)) (sym v.result)
        (subst Sound (sym (finish-outcome tree block fresh after)) sound)

  settled-Sound :
      (tree : BlockTree) (block : Block) (r : Result (BlockTree × PosChain))
      → IsSound tree
      → contains (hash block) tree.weight ≡ false
      → validate tree block ≡ r
      → Sound (settled tree block r)
  unfolding settled
  settled-Sound tree block (err e) s new v = tt
  settled-Sound tree block (ok (stored, after)) s new v =
      Validated-Sound tree block stored after s new (validate-Validated tree block stored after v)

  add_block_known :
      (tree : BlockTree) (block : Block)
      → contains (hash block) tree.weight ≡ true
      → add_block tree block ≡ (ok false, tree)
  unfolding add_block
  add_block_known tree block known = rw known refl

  -- A block that is added to a sound tree, or known to it, leaves a sound tree.
  add_block-Sound : (tree : BlockTree) (block : Block) → IsSound tree → Sound (add_block tree block)
  add_block-Sound tree block s = elim (Bool-cases (contains (hash block) tree.weight)) [
    | inl known ↦ rw (add_block_known tree block known) s
    | inr new ↦
        rw (add_block_new tree block new)
          (settled-Sound tree block (validate tree block) s new refl)
  ]

  -- The trees that grow from a genesis by calls that succeed.
  pub data Grown (args : GenesisArgs) (checkpoint : Option (Text × ℕ)) : BlockTree → Type 0 where
    young : {t : BlockTree} → init_tree args checkpoint ≡ ok t → Grown args checkpoint t
    grow :
        {t t' : BlockTree} {new : Bool} (block : Block)
        → Grown args checkpoint t
        → add_block t block ≡ (ok new, t')
        → Grown args checkpoint t'

  pub Grown-IsSound :
      (args : GenesisArgs) (checkpoint : Option (Text × ℕ)) {t : BlockTree}
      → Grown args checkpoint t
      → IsSound t
  Grown-IsSound args checkpoint (young {t} e) = init_tree-IsSound args checkpoint t e
  Grown-IsSound args checkpoint (grow {t} block g e) =
      let s = add_block-Sound t block (Grown-IsSound args checkpoint g) in rw e at s

  -- In every tree that grows from a genesis by calls of `add_block` that return, the chain against
  -- which a block is validated, also where the fast path takes it from memory, is the replay of its
  -- parent's branch from genesis, or fails as that replay does.
  pub parent_chain_equiv :
      (args : GenesisArgs) (checkpoint : Option (Text × ℕ)) (block : Block) {t : BlockTree}
      → Grown args checkpoint t
      → parent_chain t block ≡ chain_at t block.previous_hash
  parent_chain_equiv args checkpoint block {t} g =
      parent_chain-chain_at t block (Grown-IsSound args checkpoint g)

  -- In every tree that grows from a genesis by calls of `add_block` that return, each known block
  -- replays: the walk to genesis has fuel enough, and no block on it is refused by its parent's chain.
  pub known_replays :
      (args : GenesisArgs) (checkpoint : Option (Text × ℕ)) (h : Text) {t : BlockTree}
      → Grown args checkpoint t
      → contains h t.weight ≡ true
      → (c : PosChain) × (chain_at t h ≡ ok c)
  known_replays args checkpoint h g known = (Grown-IsSound args checkpoint g).branches.known h known
