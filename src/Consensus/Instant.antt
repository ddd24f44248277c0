-- ===== src/Consensus/Instant.antt =====
-- Chains of consensus.py with an unbonding period of 0.
use mindees_blockchain.Prelude.{◌≡◌, List, [], ◌∷◌, Text, Text_eq, arith, ◌∙◌, subst, sym}
use mindees_blockchain.Dict.{erase, add}
use mindees_blockchain.Primitives.{Primitives}
use mindees_blockchain.Core.Transaction.{Transaction, txid}
use mindees_blockchain.Core.Block.{Block}
use mindees_blockchain.Core.Chain.{transfer, apply_txs, begin}
use mindees_blockchain.Core.Chain.Steps.{apply_txs-Round, submit_block-Accepted}
use mindees_blockchain.Consensus.State.{Config, PosWork, PosChain, Staking, Offense}
use mindees_blockchain.Consensus.Evidence.{Link}
use mindees_blockchain.Consensus.Genesis.{GenesisArgs, init}
use mindees_blockchain.Consensus.Stake.{apply_stake, apply_unstake, release_stake}
use mindees_blockchain.Consensus.Vote.{apply_vote, cast_vote, record_vote}
use mindees_blockchain.Consensus.Slash.{apply_slash, settle_slash, confiscate}
use mindees_blockchain.Consensus.Rules.{
  apply_tx, vest, apply_block_pre, snapshot_checkpoint, mature, pos_hooks, submit,
}
use mindees_blockchain.Consensus.Reach.{Reach, Reach-keeps}
use mindees_blockchain.Consensus.Supply.Transactions.{justify_bonds}
use mindees_blockchain.Result.{Result, ok, err, ◌>>=◌, Returns}

abbrev StaysEmpty : PosWork → Result PosWork → Type 0
StaysEmpty w r = w.aux.unbonding ≡ [] → Returns (λ w'. w'.aux.unbonding ≡ []) r

module _ (tx : Transaction) (block : Block) (w : PosWork) where
  transfer-StaysEmpty : StaysEmpty w (transfer tx block w)
  unfolding transfer
  transfer-StaysEmpty h = ground arith

  apply_stake-StaysEmpty : StaysEmpty w (apply_stake tx block w)
  unfolding apply_stake
  apply_stake-StaysEmpty h = ground arith

  settle_slash-StaysEmpty :
      (treasury : Text) (found : Text × Offense)
      → StaysEmpty w (settle_slash treasury found tx block w)
  unfolding settle_slash confiscate erase
  settle_slash-StaysEmpty treasury (offender, key) h = ground arith

  cast_vote-StaysEmpty : (cfg : Config) (l : Link) → StaysEmpty w (cast_vote cfg l tx block w)
  unfolding cast_vote record_vote
  cast_vote-StaysEmpty cfg l h = grind (arith, justify_bonds)

module _ ⦃p : Primitives⦄ (cfg : Config) (tx : Transaction) (block : Block) where
  vest-StaysEmpty :
      (w : PosWork) (r : Result PosWork) → StaysEmpty w r → StaysEmpty w (r >>= vest cfg tx block)
  vest-StaysEmpty w (err e) k h = tt
  vest-StaysEmpty w (ok w') k h = ground (arith, k h)

  apply_unstake-StaysEmpty :
      (w : PosWork) → cfg.unbonding_blocks ≡ 0 → StaysEmpty w (apply_unstake cfg tx block w)
  unfolding apply_unstake release_stake
  apply_unstake-StaysEmpty w instant h = ground arith

  apply_slash-StaysEmpty : (w : PosWork) → StaysEmpty w (apply_slash cfg tx block w)
  unfolding apply_slash
  apply_slash-StaysEmpty w h = grind (arith, settle_slash-StaysEmpty)

  apply_vote-StaysEmpty : (w : PosWork) → StaysEmpty w (apply_vote cfg tx block w)
  unfolding apply_vote
  apply_vote-StaysEmpty w h = grind (arith, cast_vote-StaysEmpty)

  apply_tx-StaysEmpty :
      (w : PosWork) → cfg.unbonding_blocks ≡ 0 → StaysEmpty w (apply_tx cfg tx block w)
  unfolding apply_tx
  apply_tx-StaysEmpty w instant h = ground (
    arith,
    vest-StaysEmpty w (apply_stake tx block w) (apply_stake-StaysEmpty tx block w) h,
    vest-StaysEmpty w (apply_unstake cfg tx block w) (apply_unstake-StaysEmpty w instant) h,
    vest-StaysEmpty w (transfer tx block w) (transfer-StaysEmpty tx block w) h,
    apply_slash-StaysEmpty w h,
    apply_vote-StaysEmpty w h,
  )

-- No unbonding period, and nothing in a queue.
pub record IsInstant (c : PosChain) : Type 0 where
  pub period : c.self.config.unbonding_blocks ≡ 0
  pub queues : c.self.state.unbonding ≡ []

module _ ⦃p : Primitives⦄ where
  apply_txs-StaysEmpty :
      (self : Staking) (block : Block) (seen : List Text) (txs : List Transaction) (w : PosWork)
      {w' : PosWork}
      → apply_txs pos_hooks self block seen txs w ≡ ok w'
      → self.config.unbonding_blocks ≡ 0
      → w.aux.unbonding ≡ []
      → w'.aux.unbonding ≡ []
  unfolding apply_txs
  apply_txs-StaysEmpty self block seen [] w run instant h = ground arith
  apply_txs-StaysEmpty self block seen (tx ∷ txs) w run instant h =
      let r = apply_txs-Round pos_hooks self block seen tx txs w run in
      apply_txs-StaysEmpty self block (add (txid tx) seen) txs r.middle r.rest instant
        (ground (arith, r.applied, apply_tx-StaysEmpty self.config tx block w instant h))

  -- Nothing is paid out when a block begins.
  pub begin_instant :
      (c : PosChain) (block : Block)
      → IsInstant c
      → ((begin pos_hooks c block).aux.unbonding ≡ [])
        × ((begin pos_hooks c block).balances ≡ c.balances)
        × ((begin pos_hooks c block).nonces ≡ c.nonces)
  unfolding begin apply_block_pre snapshot_checkpoint mature
  begin_instant c block i = ground (arith, i.queues)

  submit-IsInstant :
      (c d : PosChain) (block : Block) → submit c block ≡ ok d → IsInstant c → IsInstant d
  unfolding submit
  submit-IsInstant c d block run i =
      let a = submit_block-Accepted pos_hooks c block run in
      let empty =
        apply_txs-StaysEmpty c.self block [] block.transactions (begin pos_hooks c block) a.run
          i.period (begin_instant c block i).0 in
      subst IsInstant (sym a.result) (record { period = i.period; queues = empty })

  init_instant :
      (g : GenesisArgs)
      → Returns
          (λ c.
            (c.self.config.unbonding_blocks ≡ g.unbonding_blocks) × (c.self.state.unbonding ≡ []))
          (init g)
  unfolding init
  init_instant g = ground arith

  pub Reach-IsInstant :
      (g : GenesisArgs) {c d : PosChain}
      → init g ≡ ok c
      → g.unbonding_blocks ≡ 0
      → Reach c d
      → IsInstant d
  Reach-IsInstant g {c} start instant r =
      let (same, empty) : (c.self.config.unbonding_blocks ≡ g.unbonding_blocks)
          × (c.self.state.unbonding ≡ []) =
        rw start at (init_instant g) in
      Reach-keeps IsInstant submit-IsInstant r (record { period = same ∙ instant; queues = empty })
