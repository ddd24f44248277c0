-- ===== src/Consensus/Lock.antt =====
-- The vesting lock: which transactions respect it, and which do not.
use mindees_blockchain.Prelude.{ℕ, ◌+◌, ◌-◌, ◌≤◌, ◌<◌, ◌≡◌, ◌≢◌, some, Text_eq, arith, text_eq_iff}
use mindees_blockchain.Dict.{get, get_or, credit, get_or-put_self, get_or-put_ne}
use mindees_blockchain.Json.{units}
use mindees_blockchain.Primitives.{Primitives}
use mindees_blockchain.Core.Transaction.{Transaction, slash_sentinel, vote_sentinel}
use mindees_blockchain.Core.Block.{Block}
use mindees_blockchain.Core.Chain.{Balances, transfer}
use mindees_blockchain.Consensus.State.{Aux, Config, Grant, PosWork, debit}
use mindees_blockchain.Consensus.Evidence.{Link}
use mindees_blockchain.Consensus.Stake.{
  apply_stake, apply_unstake, enforce_vesting, holding, locked_at,
}
use mindees_blockchain.Consensus.Vote.{apply_vote, cast_vote, check_vote, justify, record_vote}
use mindees_blockchain.Consensus.Rules.{apply_tx, vest}
use mindees_blockchain.Consensus.Dispatch.{apply_tx-vote}
use mindees_blockchain.Result.{Result, ok, err, ◌>>=◌, Returns}

vest-locked :
    (cfg : Config) (tx : Transaction) (block : Block) (g : Grant) (r : Result PosWork)
    → get tx.sender cfg.vesting ≡ some g
    → Returns (λ w'. locked_at g block.index ≤ holding tx.sender w') (r >>= vest cfg tx block)
unfolding enforce_vesting
vest-locked cfg tx block g (err e) h = tt
vest-locked cfg tx block g (ok w) h = ground arith

module _ ⦃p : Primitives⦄ where
  -- After any transaction but a slash or a vote, its sender still holds, liquid, staked and
  -- unbonding together, at least what the sender's grant keeps locked at the block's height.
  pub apply_tx_keeps_lock :
      (cfg : Config) (tx : Transaction) (block : Block) (g : Grant) (w : PosWork) {w' : PosWork}
      → get tx.sender cfg.vesting ≡ some g
      → tx.recipient ≢ slash_sentinel
      → tx.recipient ≢ vote_sentinel
      → apply_tx cfg tx block w ≡ ok w'
      → locked_at g block.index ≤ holding tx.sender w'
  unfolding apply_tx
  apply_tx_keeps_lock cfg tx block g w owned not_slash not_vote h = ground (
    arith,
    vest-locked cfg tx block g (apply_stake tx block w) owned,
    vest-locked cfg tx block g (apply_unstake cfg tx block w) owned,
    vest-locked cfg tx block g (transfer tx block w) owned,
    text_eq_iff tx.recipient slash_sentinel,
    text_eq_iff tx.recipient vote_sentinel,
  )

justify_bonds :
    (cfg : Config) (l : Link) (aux : Aux)
    → ((justify cfg l aux).stakes ≡ aux.stakes) × ((justify cfg l aux).unbonding ≡ aux.unbonding)
unfolding justify
justify_bonds cfg l aux = ground arith

module _ (cfg : Config) (tx : Transaction) (block : Block) (w : PosWork) where
  paid_balance :
      {paid : Balances}
      → debit tx.sender (units tx.fee) w.balances ≡ ok paid
      → get_or tx.sender 0 paid ≡ get_or tx.sender 0 w.balances - units tx.fee
  unfolding debit
  paid_balance h =
      ground (
        arith,
        get_or-put_self tx.sender (get_or tx.sender 0 w.balances - units tx.fee) 0 w.balances,
      )

  cast_vote-holding :
      (l : Link)
      → units tx.fee ≤ get_or tx.sender 0 w.balances
      → tx.sender ≢ block.validator
      → Returns
          (λ w'. holding tx.sender w' + units tx.fee ≡ holding tx.sender w)
          (cast_vote cfg l tx block w)
  unfolding cast_vote credit holding record_vote
  cast_vote-holding l funded ne = grind (
    arith,
    paid_balance,
    justify_bonds,
    λ (paid : Balances) (n : ℕ). get_or-put_ne tx.sender block.validator n 0 paid ne,
  )

  check_vote_funds :
      (l : Link)
      → Returns (λ _. units tx.fee ≤ get_or tx.sender 0 w.balances) (check_vote cfg l tx w)
  unfolding check_vote
  check_vote_funds l = ground arith

  module _ ⦃p : Primitives⦄ where
    apply_vote-holding :
        tx.sender ≢ block.validator
        → Returns
            (λ w'. holding tx.sender w' + units tx.fee ≡ holding tx.sender w)
            (apply_vote cfg tx block w)
    unfolding apply_vote
    apply_vote-holding ne = grind (arith, check_vote_funds, cast_vote-holding)

    -- A finality vote is exempt: if its sender holds just what its grant keeps locked, and the vote
    -- pays a fee to another proposer, the sender holds less than the locked amount afterwards.
    pub vote_escapes_lock :
        (g : Grant) {w' : PosWork}
        → tx.recipient ≡ vote_sentinel
        → tx.sender ≢ block.validator
        → holding tx.sender w ≡ locked_at g block.index
        → 0 < units tx.fee
        → apply_tx cfg tx block w ≡ ok w'
        → holding tx.sender w' < locked_at g block.index
    vote_escapes_lock g vote other full paid h =
        ground (arith, apply_vote-holding other, apply_tx-vote cfg tx block w vote)
