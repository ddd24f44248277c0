-- ===== src/Core/Chain/Distinct.antt =====
-- No accepted block holds a transaction twice, whatever its Merkle root says.
use mindees_blockchain.Prelude.{◌≡◌, false, List, [], ◌∷◌, Text, Text_eq}
use mindees_blockchain.Dict.{member, add}
use mindees_blockchain.Primitives.{Primitives}
use mindees_blockchain.Core.Transaction.{Transaction, txid}
use mindees_blockchain.Core.Block.{Block}
use mindees_blockchain.Core.Chain.{Chain, Work, Hooks, apply_txs, submit_block}
use mindees_blockchain.Core.Chain.Steps.{apply_txs-Round, submit_block-Accepted}
use mindees_blockchain.Result.{ok}

-- None of the ids is in `seen`, and none comes twice.
abbrev pub IsFresh : ⦃p : Primitives⦄ → List Text → List Transaction → Type 0
IsFresh seen [] = Unit
IsFresh seen (tx ∷ txs) = (member (txid tx) seen ≡ false) × IsFresh (add (txid tx) seen) txs

module _ ⦃p : Primitives⦄ {Self Aux : Type 0} (hooks : Hooks Self Aux) where
  apply_txs-IsFresh :
      (self : Self) (block : Block) (seen : List Text) (txs : List Transaction) (w : Work Aux)
      {w' : Work Aux}
      → apply_txs hooks self block seen txs w ≡ ok w'
      → IsFresh seen txs
  apply_txs-IsFresh self block seen [] w h = tt
  apply_txs-IsFresh self block seen (tx ∷ txs) w h =
      let r = apply_txs-Round hooks self block seen tx txs w h in
      (r.fresh, apply_txs-IsFresh self block (add (txid tx) seen) txs r.middle r.rest)

  -- The ids of an accepted block's transactions differ from one another, under any rules.
  pub submit_block_distinct :
      (c : Chain Self) (block : Block) {c' : Chain Self}
      → submit_block hooks c block ≡ ok c'
      → IsFresh [] block.transactions
  submit_block_distinct c block h =
      apply_txs-IsFresh c.self block [] block.transactions _
        (submit_block-Accepted hooks c block h).run
