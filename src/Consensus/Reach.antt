-- ===== src/Consensus/Reach.antt =====
-- The chains that a genesis can grow into: the blocks submitted, one after another.
use mindees_blockchain.Prelude.{◌≡◌}
use mindees_blockchain.Primitives.{Primitives}
use mindees_blockchain.Core.Block.{Block}
use mindees_blockchain.Consensus.State.{PosChain}
use mindees_blockchain.Consensus.Rules.{submit}
use mindees_blockchain.Result.{ok}

pub data Reach ⦃p : Primitives⦄ (c : PosChain) : PosChain → Type 0 where
  here : Reach c c
  next : {d e : PosChain} (block : Block) → Reach c d → submit d block ≡ ok e → Reach c e

-- A property that every accepted block keeps holds all along.
pub Reach-keeps {ℓ} :
    ⦃p : Primitives⦄ (P : PosChain → Type ℓ)
    → ((d e : PosChain) (block : Block) → submit d block ≡ ok e → P d → P e)
    → {c d : PosChain} → Reach c d
    → P c
    → P d
Reach-keeps P keep here h = h
Reach-keeps P keep (next {d} {e} block r s) h = keep d e block s (Reach-keeps P keep r h)
