-- ===== src/ForkChoice.antt =====
-- forkchoice.BlockTree: the tree of accepted blocks, the heaviest branch and the finalized frontier.
pub mod Finality
pub mod Branches
pub mod Stored
pub mod Sound
pub mod Validated
pub mod Replay
pub mod Errors
use mindees_blockchain.Prelude.{
  ℕ, zero, suc, ◌+◌, Bool, true, false, ◌&&◌, Option, none, some, List, [], ◌∷◌, Text, Text_eq,
  ◌==◌, text_lt, eqb, ltb, leb, not, if◌then◌else◌, length,
}
use mathlib.Core.List.{reverse}
use mindees_blockchain.Dict.{Dict, get, get_or, contains, put}
use mindees_blockchain.Primitives.{Primitives}
use mindees_blockchain.Core.Block.{Block, hash}
use mindees_blockchain.Consensus.State.{PosChain}
use mindees_blockchain.Consensus.Genesis.{GenesisArgs, init}
use mindees_blockchain.Consensus.Queries.{stake_of, finalized_checkpoint}
use mindees_blockchain.Consensus.Rules.{submit}
use mindees_blockchain.Result.{
  Result, ok, err, invalid, key_error, raise_if, or_raise, ◌>>=◌, ◌>>◌, unknown_block, orphan,
  conflicts_finalized, not_descendant, conflicts_checkpoint, conflicting_finality,
}

pub record BlockTree : Type 0 where
  pub args : GenesisArgs
  pub canonical : PosChain
  pub genesis_hash : Text
  pub head_hash : Text
  pub ws_checkpoint : Option (Text × ℕ)
  pub finalized_hash : Text
  pub finalized_height : ℕ
  pub blocks : Dict Text Block
  pub parent : Dict Text Text
  pub weight : Dict Text ℕ
  pub height : Dict Text ℕ

module _ ⦃p : Primitives⦄ where
  -- BlockTree.__init__
  unfoldable pub init_tree : GenesisArgs → Option (Text × ℕ) → Result BlockTree
  init_tree args checkpoint = do
    c ← init args
    let g = hash c.head
    ok (record {
      args = args;
      canonical = c;
      genesis_hash = g;
      head_hash = g;
      ws_checkpoint = checkpoint;
      finalized_hash = g;
      finalized_height = 0;
      blocks = [];
      parent = [];
      weight = (g, 0) ∷ [];
      height = (g, 0) ∷ [];
    })

-- The walk from a block up to genesis, as the path down from genesis. Parents are stored after
-- their own parents, so the number of stored parents bounds its length.
unfoldable pub path_to : ℕ → BlockTree → Text → List Text → Result (List Text)
path_to zero tree h path = if h == tree.genesis_hash then ok path else err (invalid unknown_block)
path_to (suc f) tree h path = elim (h == tree.genesis_hash) [
  | true ↦ ok path
  | false ↦
      or_raise (get h tree.parent) (invalid unknown_block) >>= λ up. path_to f tree up (h ∷ path)
]

module _ ⦃p : Primitives⦄ where
  unfoldable pub replay : BlockTree → List Text → PosChain → Result PosChain
  replay tree [] c = ok c
  replay tree (h ∷ path) c = do
    block ← or_raise (get h tree.blocks) key_error
    c' ← submit c block
    replay tree path c'

  unfoldable pub chain_at : BlockTree → Text → Result PosChain
  unfolding path_to replay
  chain_at tree h = do
    path ← path_to (length tree.parent) tree h []
    c ← init tree.args
    replay tree path c

-- A greater weight, and the smaller hash among equals.
unfoldable pub better : BlockTree → Text → Text → Bool
better tree a b =
    if eqb (get_or a 0 tree.weight) (get_or b 0 tree.weight)
    then text_lt a b
    else ltb (get_or b 0 tree.weight) (get_or a 0 tree.weight)

-- The loop of `_descends_from_finalized`; each round goes up one height.
unfoldable pub climb : ℕ → BlockTree → Text → Option Text
climb zero tree cur = some cur
climb (suc f) tree cur = elim (ltb tree.finalized_height (get_or cur 0 tree.height)) [
  | true ↦ elim (get cur tree.parent) [ none ↦ none | some up ↦ climb f tree up ]
  | false ↦ some cur
]

abbrev pub is_finalized : BlockTree → Option Text → Bool
is_finalized tree none = false
is_finalized tree (some h) = h == tree.finalized_hash

-- The height of a block is fuel enough.
unfoldable pub descends_from_finalized : BlockTree → Text → Bool
unfolding climb
descends_from_finalized tree h = is_finalized tree (climb (get_or h 0 tree.height) tree h)

-- The loop of `_update_head` over the known blocks.
unfoldable pub best_of : BlockTree → Text → Dict Text ℕ → Text
unfolding better descends_from_finalized
best_of tree best [] = best
best_of tree best ((h, w) ∷ d) =
    best_of tree (if descends_from_finalized tree h && better tree h best then h else best) d

module _ ⦃p : Primitives⦄ where
  -- A new head rebuilds the canonical chain.
  unfoldable pub update_head : BlockTree → Result BlockTree
  unfolding best_of
  update_head tree =
      let best = best_of tree tree.finalized_hash tree.weight in
      if best == tree.head_hash
      then ok tree
      else (chain_at tree best >>= λ c. ok (record tree { head_hash = best; canonical = c }))

  abbrev pub misses_checkpoint : Option (Text × ℕ) → ℕ → Text → Bool
  misses_checkpoint none height h = false
  misses_checkpoint (some (trusted, at)) height h = eqb height at && not (h == trusted)

  -- The guards of `add_block` on a block that is not known: the height that it would have.
  unfoldable pub check_block : BlockTree → Block → Result ℕ
  check_block tree block = do
    raise_if (not (contains block.previous_hash tree.weight)) orphan
    up ← or_raise (get block.previous_hash tree.height) key_error
    raise_if (leb (up + 1) tree.finalized_height && not (hash block == tree.finalized_hash))
        conflicts_finalized
    raise_if
        (ltb tree.finalized_height (up + 1)
          && not (descends_from_finalized tree block.previous_hash))
        not_descendant
    raise_if (misses_checkpoint tree.ws_checkpoint (up + 1) (hash block)) conflicts_checkpoint
    ok (up + 1)

  -- The chain at the parent: the canonical one where the block extends the head.
  unfoldable pub parent_chain : BlockTree → Block → Result PosChain
  parent_chain tree block =
      if block.previous_hash == tree.head_hash
      then ok tree.canonical
      else chain_at tree block.previous_hash

  -- The block in the tree, with the weight of its branch.
  unfoldable pub store_block : BlockTree → Block → ℕ → ℕ → PosChain → BlockTree
  store_block tree block height stake validated = record tree {
    canonical = if block.previous_hash == tree.head_hash then validated else tree.canonical;
    blocks = put (hash block) block tree.blocks;
    parent = put (hash block) block.previous_hash tree.parent;
    height = put (hash block) height tree.height;
    weight = put (hash block) (get_or block.previous_hash 0 tree.weight + stake) tree.weight;
  }

  abbrev hash_at : ℕ → List Block → Option Text
  hash_at i [] = none
  hash_at zero (b ∷ bs) = some (hash b)
  hash_at (suc i) (b ∷ bs) = hash_at i bs

  abbrev conflicts : Option Text → Text → Bool
  conflicts none h = false
  conflicts (some b) h = not (b == h)

  -- The frontier follows the branch that was validated, unless that branch lacks the block which
  -- is final already.
  unfoldable pub advance_frontier : BlockTree → PosChain → Result BlockTree
  advance_frontier tree validated =
      let (fh, fheight) = finalized_checkpoint validated in
      let branch = reverse (validated.head ∷ validated.older) in
      if not (ltb tree.finalized_height fheight)
      then ok tree
      else if conflicts (hash_at tree.finalized_height branch) tree.finalized_hash
      then err (invalid conflicting_finality)
      else ok (record tree { finalized_hash = fh; finalized_height = fheight })

  unfoldable pub choose_head : BlockTree → Block → BlockTree → Result BlockTree
  unfolding update_head
  choose_head before block tree =
      if block.previous_hash == before.head_hash
      then ok (record tree { head_hash = hash block })
      else update_head tree

  -- After the block is stored an exception no longer undoes it.
  abbrev pub or_keep : BlockTree → Result BlockTree → Result Bool × BlockTree
  or_keep kept (ok tree) = (ok true, tree)
  or_keep kept (err e) = (err e, kept)

  unfoldable pub finish : BlockTree → Block → BlockTree → PosChain → Result Bool × BlockTree
  unfolding advance_frontier choose_head
  finish before block stored validated = elim (advance_frontier stored validated) [
    | err e ↦ (err e, stored)
    | ok tree ↦ or_keep tree (choose_head before block tree)
  ]

  -- The steps up to the moment where the block is stored.
  unfoldable pub validate : BlockTree → Block → Result (BlockTree × PosChain)
  unfolding check_block parent_chain store_block
  validate tree block = do
    height ← check_block tree block
    c ← parent_chain tree block
    validated ← submit c block
    ok (store_block tree block height (stake_of block.validator c) validated, validated)

  -- BlockTree.add_block: the answer or the exception, and the tree afterwards
  unfoldable pub add_block : BlockTree → Block → Result Bool × BlockTree
  unfolding validate finish
  add_block tree block =
      if contains (hash block) tree.weight then (ok false, tree) else elim (validate tree block) [
        | err e ↦ (err e, tree)
        | ok (stored, validated) ↦ finish tree block stored validated
      ]
