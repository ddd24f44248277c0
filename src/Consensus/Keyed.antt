-- ===== src/Consensus/Keyed.antt =====
-- Each address has one unbonding queue, whatever the chain accepts.
use mindees_blockchain.Prelude.{◌≡◌, List, [], ◌∷◌, Text, Text_eq, arith}
use mindees_blockchain.Dict.{IsUnique, erase, add, put-IsUnique, erase-IsUnique}
use mindees_blockchain.Primitives.{Primitives}
use mindees_blockchain.Core.Transaction.{Transaction, txid}
use mindees_blockchain.Core.Block.{Block}
use mindees_blockchain.Core.Chain.{transfer, apply_txs, begin}
use mindees_blockchain.Core.Chain.Steps.{apply_txs-Round, submit_block-Accepted}
use mindees_blockchain.Consensus.State.{Bond, Config, PosWork, PosChain, Staking, Offense}
use mindees_blockchain.Consensus.Evidence.{Link}
use mindees_blockchain.Consensus.Stake.{apply_stake, apply_unstake, push_bond, release_stake}
use mindees_blockchain.Consensus.Vote.{apply_vote, cast_vote, record_vote}
use mindees_blockchain.Consensus.Slash.{apply_slash, settle_slash, confiscate}
use mindees_blockchain.Consensus.Rules.{
  apply_tx, vest, apply_block_pre, snapshot_checkpoint, pos_hooks, submit,
}
use mindees_blockchain.Consensus.Supply.Transactions.{justify_bonds}
use mindees_blockchain.Consensus.Maturing.{BondQueues, mature-IsUnique}
use mindees_blockchain.Result.{Result, ok, err, ◌>>=◌, Returns}

unfoldable pub HasOneQueue : BondQueues → Type 0
HasOneQueue u = IsUnique u

push_bond-HasOneQueue :
    (a : Text) (b : Bond) (u : BondQueues) → HasOneQueue u → HasOneQueue (push_bond a b u)
unfolding HasOneQueue push_bond
push_bond-HasOneQueue a b u h = put-IsUnique a _ u h

erase-HasOneQueue : (a : Text) (u : BondQueues) → HasOneQueue u → HasOneQueue (erase a u)
unfolding HasOneQueue
erase-HasOneQueue a u h = erase-IsUnique a u h

abbrev QueuesKept : PosWork → Result PosWork → Type 0
QueuesKept w r = HasOneQueue w.aux.unbonding → Returns (λ w'. HasOneQueue w'.aux.unbonding) r

module _ (tx : Transaction) (block : Block) (w : PosWork) where
  transfer-QueuesKept : QueuesKept w (transfer tx block w)
  unfolding transfer
  transfer-QueuesKept h = ground arith

  apply_stake-QueuesKept : QueuesKept w (apply_stake tx block w)
  unfolding apply_stake
  apply_stake-QueuesKept h = ground arith

release_stake-HasOneQueue :
    (cfg : Config) (tx : Transaction) (block : Block) (w : PosWork)
    → HasOneQueue w.aux.unbonding
    → HasOneQueue (release_stake cfg tx block w).aux.unbonding
unfolding release_stake
release_stake-HasOneQueue cfg tx block w h = grind (arith, push_bond-HasOneQueue)

apply_unstake-QueuesKept :
    (cfg : Config) (tx : Transaction) (block : Block) (w : PosWork)
    → QueuesKept w (apply_unstake cfg tx block w)
unfolding apply_unstake
apply_unstake-QueuesKept cfg tx block w h = grind (arith, release_stake-HasOneQueue)

settle_slash-QueuesKept :
    (treasury : Text) (found : Text × Offense) (tx : Transaction) (block : Block) (w : PosWork)
    → QueuesKept w (settle_slash treasury found tx block w)
unfolding settle_slash confiscate
settle_slash-QueuesKept treasury (offender, key) tx block w h =
    ground (arith, erase-HasOneQueue offender w.aux.unbonding)

cast_vote-QueuesKept :
    (cfg : Config) (l : Link) (tx : Transaction) (block : Block) (w : PosWork)
    → QueuesKept w (cast_vote cfg l tx block w)
unfolding cast_vote record_vote
cast_vote-QueuesKept cfg l tx block w h = grind (arith, justify_bonds)

module _ ⦃p : Primitives⦄ (cfg : Config) (tx : Transaction) (block : Block) where
  vest-QueuesKept :
      (w : PosWork) (r : Result PosWork) → QueuesKept w r → QueuesKept w (r >>= vest cfg tx block)
  vest-QueuesKept w (err e) k h = tt
  vest-QueuesKept w (ok w') k h = ground (arith, k h)

  apply_slash-QueuesKept : (w : PosWork) → QueuesKept w (apply_slash cfg tx block w)
  unfolding apply_slash
  apply_slash-QueuesKept w h = grind (arith, settle_slash-QueuesKept)

  apply_vote-QueuesKept : (w : PosWork) → QueuesKept w (apply_vote cfg tx block w)
  unfolding apply_vote
  apply_vote-QueuesKept w h = grind (arith, cast_vote-QueuesKept)

  apply_tx-QueuesKept : (w : PosWork) → QueuesKept w (apply_tx cfg tx block w)
  unfolding apply_tx
  apply_tx-QueuesKept w h = ground (
    arith,
    vest-QueuesKept w (apply_stake tx block w) (apply_stake-QueuesKept tx block w) h,
    vest-QueuesKept w (apply_unstake cfg tx block w) (apply_unstake-QueuesKept cfg tx block w) h,
    vest-QueuesKept w (transfer tx block w) (transfer-QueuesKept tx block w) h,
    apply_slash-QueuesKept w h,
    apply_vote-QueuesKept w h,
  )

module _ ⦃p : Primitives⦄ where
  apply_txs-HasOneQueue :
      (self : Staking) (block : Block) (seen : List Text) (txs : List Transaction) (w : PosWork)
      {w' : PosWork}
      → apply_txs pos_hooks self block seen txs w ≡ ok w'
      → HasOneQueue w.aux.unbonding
      → HasOneQueue w'.aux.unbonding
  unfolding apply_txs
  apply_txs-HasOneQueue self block seen [] w run h = ground arith
  apply_txs-HasOneQueue self block seen (tx ∷ txs) w run h =
      let r = apply_txs-Round pos_hooks self block seen tx txs w run in
      apply_txs-HasOneQueue self block (add (txid tx) seen) txs r.middle r.rest
        (ground (arith, r.applied, apply_tx-QueuesKept self.config tx block w h))

  pub begin-HasOneQueue :
      (c : PosChain) (block : Block)
      → HasOneQueue c.self.state.unbonding
      → HasOneQueue (begin pos_hooks c block).aux.unbonding
  unfolding begin apply_block_pre snapshot_checkpoint HasOneQueue
  begin-HasOneQueue c block h =
      ground (arith, mature-IsUnique block.index c.self.state.unbonding c.balances h)

  pub submit-HasOneQueue :
      (c : PosChain) (block : Block) {c' : PosChain}
      → submit c block ≡ ok c'
      → HasOneQueue c.self.state.unbonding
      → HasOneQueue c'.self.state.unbonding
  unfolding submit
  submit-HasOneQueue c block run h =
      let a = submit_block-Accepted pos_hooks c block run in
      rw a.result (
        apply_txs-HasOneQueue c.self block [] block.transactions (begin pos_hooks c block) a.run
          (begin-HasOneQueue c block h))
