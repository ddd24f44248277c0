-- ===== src/ForkChoice/Sound.antt =====
-- Every block that the tree knows replays from genesis, and the canonical chain is the replay of the
-- head: the fast path at the head takes nothing from memory that a replay would not give.
use mindees_blockchain.Prelude.{
  ℕ, ◌≡◌, ◌≢◌, true, false, [], ◌∷◌, Option, some, none, Text, Text_eq, arith, length, ◌==◌,
  text_eq_iff, Bool-cases, inl, inr, refl, ap, ◌∙◌, subst, if◌then◌else◌,
}
use mindees_blockchain.Dict.{get, contains, get-put, contains-put}
use mindees_blockchain.Primitives.{Primitives}
use mindees_blockchain.Core.Block.{Block, hash}
use mindees_blockchain.Consensus.State.{PosChain}
use mindees_blockchain.Consensus.Genesis.{GenesisArgs, init}
use mindees_blockchain.Consensus.Rules.{submit}
use mindees_blockchain.ForkChoice.{
  BlockTree, init_tree, path_to, replay, chain_at, store_block, advance_frontier, update_head,
  best_of,
}
use mindees_blockchain.ForkChoice.Branches.{Extends, chain_at-Extends}
use mindees_blockchain.ForkChoice.Stored.{store-Extends, chain_at-store, chain_at-path}
use mindees_blockchain.Result.{Result, ok, err, ◌>>=◌, >>=-eq-ok, Returns}

module _ ⦃p : Primitives⦄ where
  -- Each block that has a weight replays, and no other block has a parent or is stored.
  pub record HasBranches (t : BlockTree) : Type 0 where
    pub genesis : contains t.genesis_hash t.weight ≡ true
    pub known : (h : Text) → contains h t.weight ≡ true → (c : PosChain) × (chain_at t h ≡ ok c)
    pub no_parent : (h : Text) → contains h t.weight ≡ false → get h t.parent ≡ none
    pub no_block : (h : Text) → contains h t.weight ≡ false → get h t.blocks ≡ none

  pub record IsSound (t : BlockTree) : Type 0 where
    pub branches : HasBranches t
    pub canonical : chain_at t t.head_hash ≡ ok t.canonical

  abbrev young_tree : GenesisArgs → Option (Text × ℕ) → PosChain → BlockTree
  young_tree args checkpoint c = record {
    args = args;
    canonical = c;
    genesis_hash = hash c.head;
    head_hash = hash c.head;
    ws_checkpoint = checkpoint;
    finalized_hash = hash c.head;
    finalized_height = 0;
    blocks = [];
    parent = [];
    weight = (hash c.head, 0) ∷ [];
    height = (hash c.head, 0) ∷ [];
  }

  young_tree_genesis :
      (args : GenesisArgs) (checkpoint : Option (Text × ℕ)) (c : PosChain)
      → init args ≡ ok c
      → chain_at (young_tree args checkpoint c) (hash c.head) ≡ ok c
  young_tree_genesis args checkpoint c e =
      chain_at-path (young_tree args checkpoint c) (hash c.head) [] c c
        (unfold path_to in ground (arith, text_eq_iff (hash c.head) (hash c.head))) e
        (unfold replay in refl)

  young_tree-IsSound :
      (args : GenesisArgs) (checkpoint : Option (Text × ℕ)) (c : PosChain)
      → init args ≡ ok c
      → IsSound (young_tree args checkpoint c)
  unfolding contains get
  young_tree-IsSound args checkpoint c e =
      let genesis = young_tree_genesis args checkpoint c e in
      let g = hash c.head in
      record {
        branches = record {
          genesis = ground (arith, text_eq_iff g g);
          known = λ h m. (
            c,
            ap (chain_at (young_tree args checkpoint c)) (ground (arith, m, text_eq_iff h g))
                ∙ genesis,
          );
          no_parent = λ h m. refl;
          no_block = λ h m. refl;
        };
        canonical = genesis;
      }

  pub init_tree-IsSound :
      (args : GenesisArgs) (checkpoint : Option (Text × ℕ)) (t : BlockTree)
      → init_tree args checkpoint ≡ ok t
      → IsSound t
  unfolding init_tree
  init_tree-IsSound args checkpoint t e =
      let (c, began, done) = >>=-eq-ok (init args) _ e in
      let same : young_tree args checkpoint c ≡ t = cc in
      subst IsSound same (young_tree-IsSound args checkpoint c began)

  -- The dictionaries after a block is stored.
  store_block_keys :
      (t : BlockTree) (block : Block) (height stake : ℕ) (c : PosChain) (h : Text)
      → let t' = store_block t block height stake c in
        (contains h t'.weight ≡ (if h == hash block then true else contains h t.weight))
        × (get h t'.parent ≡ (if h == hash block then some block.previous_hash else get h t.parent))
        × (get h t'.blocks ≡ (if h == hash block then some block else get h t.blocks))
        × (t'.genesis_hash ≡ t.genesis_hash)
  unfolding store_block
  store_block_keys t block height stake c h = (
    contains-put h (hash block) _ t.weight,
    get-put h (hash block) block.previous_hash t.parent,
    get-put h (hash block) block t.blocks,
    refl,
  )

  pub store-HasBranches :
      (t : BlockTree) (block : Block) (height stake : ℕ) (c c' : PosChain)
      → HasBranches t
      → contains (hash block) t.weight ≡ false
      → chain_at t block.previous_hash ≡ ok c
      → submit c block ≡ ok c'
      → HasBranches (store_block t block height stake c')
  store-HasBranches t block height stake c c' b new before applied =
      let t' = store_block t block height stake c' in
      let h = hash block in
      let new_parent = b.no_parent h new in
      let new_block = b.no_block h new in
      let e = store-Extends t block height stake c' new_parent new_block in
      let keys = store_block_keys t block height stake c' in
      let other : h ≢ t.genesis_hash =
        λ same. ground (arith, b.genesis, new, ap (λ x. contains x t.weight) same) in
      let top =
        chain_at-store t block height stake c c' new_parent new_block other before applied in
      record {
        genesis = ground (arith, keys t.genesis_hash, b.genesis);
        known = λ x m. elim (Bool-cases (x == h)) [
          | inl same ↦ (c', ap (chain_at t') ((text_eq_iff x h).0 same) ∙ top)
          | inr apart ↦
              let (d, r) = b.known x (ground (arith, keys x)) in (d, chain_at-Extends t t' x d e r)
        ];
        no_parent = λ x m. ground (arith, keys x, b.no_parent x);
        no_block = λ x m. ground (arith, keys x, b.no_block x);
      }

  -- The branches are in the parents and the blocks: the rest of the tree may change.
  pub record SameBranches (a b : BlockTree) : Type 0 where
    pub args : b.args ≡ a.args
    pub genesis : b.genesis_hash ≡ a.genesis_hash
    pub parent : b.parent ≡ a.parent
    pub blocks : b.blocks ≡ a.blocks
    pub weight : b.weight ≡ a.weight

  pub SameBranches-Extends : (a b : BlockTree) → SameBranches a b → Extends a b
  SameBranches-Extends a b s = record {
    args = s.args;
    genesis = s.genesis;
    parent = λ h up e. rw s.parent e;
    blocks = λ h block e. rw s.blocks e;
    room = omega (arith, ap length s.parent);
  }

  pub SameBranches-HasBranches :
      (a b : BlockTree) → SameBranches a b → HasBranches a → HasBranches b
  SameBranches-HasBranches a b s g = record {
    genesis = rw (s.weight, s.genesis) g.genesis;
    known = λ h m.
        let (c, r) = g.known h (subst (λ w. contains h w ≡ true) s.weight m) in
        (c, chain_at-Extends a b h c (SameBranches-Extends a b s) r);
    no_parent = λ h m. rw s.parent (g.no_parent h (subst (λ w. contains h w ≡ false) s.weight m));
    no_block = λ h m. rw s.blocks (g.no_block h (subst (λ w. contains h w ≡ false) s.weight m));
  }

  pub advance_frontier-SameBranches :
      (t : BlockTree) (c : PosChain)
      → Returns
          (λ t'. SameBranches t t' × (t'.canonical ≡ t.canonical) × (t'.head_hash ≡ t.head_hash))
          (advance_frontier t c)
  unfolding advance_frontier
  advance_frontier-SameBranches t c = ground arith

  pub rehead-IsSound :
      (t t' : BlockTree)
      → HasBranches t
      → SameBranches t t'
      → chain_at t t'.head_hash ≡ ok t'.canonical
      → IsSound t'
  rehead-IsSound t t' b same h = record {
    branches = SameBranches-HasBranches t t' same b;
    canonical = chain_at-Extends t t' t'.head_hash t'.canonical (SameBranches-Extends t t' same) h;
  }

  -- A reorganisation takes the replay of the new head.
  reorganised : (t : BlockTree) (best : Text) → PosChain → BlockTree
  reorganised t best c = record t { head_hash = best; canonical = c }

  reorganised-IsSound :
      (t : BlockTree) (best : Text) (r : Result PosChain)
      → HasBranches t
      → chain_at t best ≡ r
      → Returns IsSound (r >>= λ c. ok (reorganised t best c))
  unfolding reorganised
  reorganised-IsSound t best (err e) b h = tt
  reorganised-IsSound t best (ok c) b h =
      rehead-IsSound t (reorganised t best c) b
        (record { args = refl; genesis = refl; parent = refl; blocks = refl; weight = refl }) h

  pub update_head-IsSound : (t : BlockTree) → IsSound t → Returns IsSound (update_head t)
  unfolding update_head reorganised
  update_head-IsSound t s =
      let best = best_of t t.finalized_hash t.weight in
      elim (Bool-cases (best == t.head_hash)) [
        | inl e ↦ rw e s
        | inr e ↦ rw e (reorganised-IsSound t best (chain_at t best) s.branches refl)
      ]
