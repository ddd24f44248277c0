-- ===== src/ForkChoice/Branches.antt =====
-- Branches of the tree: what replays in a tree still replays, to the same chain, in any tree that
-- extends it.
use mindees_blockchain.Prelude.{
  ℕ, zero, suc, ◌≤◌, ◌≡◌, List, [], ◌∷◌, ◌++◌, some, Text, Text_eq, arith, length,
}
use mindees_blockchain.Dict.{get}
use mindees_blockchain.Primitives.{Primitives}
use mindees_blockchain.Core.Block.{Block}
use mindees_blockchain.Consensus.State.{PosChain}
use mindees_blockchain.ForkChoice.{BlockTree, path_to, replay, chain_at}
use mindees_blockchain.Result.{ok}

-- `b` keeps every parent and every block of `a`, and has room for as many steps.
pub record Extends (a b : BlockTree) : Type 0 where
  pub args : b.args ≡ a.args
  pub genesis : b.genesis_hash ≡ a.genesis_hash
  pub parent : (h up : Text) → get h a.parent ≡ some up → get h b.parent ≡ some up
  pub blocks :
      (h : Text) (block : Block) → get h a.blocks ≡ some block → get h b.blocks ≡ some block
  pub room : length a.parent ≤ length b.parent

pub path_to-Extends :
    (a b : BlockTree) (f g : ℕ) (h : Text) (path q : List Text)
    → Extends a b
    → f ≤ g
    → path_to f a h path ≡ ok q
    → path_to g b h path ≡ ok q
unfolding path_to
path_to-Extends a b zero zero h path q e le p = ground (arith, e.genesis)
path_to-Extends a b zero (suc g) h path q e le p = ground (arith, e.genesis)
path_to-Extends a b (suc f) zero h path q e le p = absurd (omega arith)
path_to-Extends a b (suc f) (suc g) h path q e le p =
    grind (arith, e.genesis, e.parent h, λ (up : Text). path_to-Extends a b f g up (h ∷ path) q e)

pub path_to-append :
    (t : BlockTree) (f : ℕ) (h : Text) (path rest q : List Text)
    → path_to f t h path ≡ ok q
    → path_to f t h (path ++ rest) ≡ ok (q ++ rest)
unfolding path_to
path_to-append t zero h path rest q p = ground arith
path_to-append t (suc f) h path rest q p =
    grind (arith, λ (up : Text). path_to-append t f up (h ∷ path) rest q)

module _ ⦃p : Primitives⦄ where
  pub replay-Extends :
      (a b : BlockTree) (path : List Text) (c d : PosChain)
      → Extends a b
      → replay a path c ≡ ok d
      → replay b path c ≡ ok d
  unfolding replay
  replay-Extends a b [] c d e r = r
  replay-Extends a b (h ∷ path) c d e r =
      grind (arith, e.blocks h, λ (c' : PosChain). replay-Extends a b path c' d e)

  -- A longer path is replayed in two parts.
  pub replay-append :
      (t : BlockTree) (path rest : List Text) (c d : PosChain)
      → replay t path c ≡ ok d
      → replay t (path ++ rest) c ≡ replay t rest d
  unfolding replay
  replay-append t [] rest c d r = grind arith
  replay-append t (h ∷ path) rest c d r =
      grind (arith, λ (c' : PosChain). replay-append t path rest c' d)

  pub chain_at-Extends :
      (a b : BlockTree) (h : Text) (c : PosChain)
      → Extends a b
      → chain_at a h ≡ ok c
      → chain_at b h ≡ ok c
  unfolding chain_at
  chain_at-Extends a b h c e r = grind (
    arith,
    e.args,
    e.room,
    λ (q : List Text). path_to-Extends a b (length a.parent) (length b.parent) h [] q e,
    λ (path : List Text) (d : PosChain). replay-Extends a b path d c e,
  )
