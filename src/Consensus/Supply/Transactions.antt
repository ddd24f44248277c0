-- ===== src/Consensus/Supply/Transactions.antt =====
-- Each kind of transaction moves units between balances, stakes and queues, and keeps their sum.
use mindees_blockchain.Prelude.{ℕ, ◌+◌, ◌-◌, ◌≤◌, ◌≡◌, Text, Text_eq, arith}
use mindees_blockchain.Dict.{get_or, total, credit, total-credit, total-debit, total-erase}
use mindees_blockchain.Json.{units}
use mindees_blockchain.Primitives.{Primitives}
use mindees_blockchain.Core.Transaction.{Transaction}
use mindees_blockchain.Core.Block.{Block}
use mindees_blockchain.Core.Chain.{Balances, transfer}
use mindees_blockchain.Consensus.State.{Aux, Config, PosWork, Offense, supply}
use mindees_blockchain.Consensus.Stake.{apply_stake, apply_unstake, release_stake, drop_validator}
use mindees_blockchain.Consensus.Vote.{apply_vote, cast_vote, justify, record_vote, check_vote}
use mindees_blockchain.Consensus.Slash.{
  apply_slash, settle_slash, confiscate, bonded_of, reporter_share, beneficiary,
}
use mindees_blockchain.Consensus.Rules.{apply_tx, vest}
use mindees_blockchain.Consensus.Evidence.{Link}
use mindees_blockchain.Consensus.Supply.Queues.{
  total-debited, unbonding_total-push, unbonding_total-erase,
}
use mindees_blockchain.Result.{Result, ok, err, ◌>>=◌, Returns}

abbrev pub Conserves : PosWork → Result PosWork → Type 0
Conserves w r = Returns (λ w'. supply w' ≡ supply w) r

transfer-Conserves :
    (tx : Transaction) (block : Block) (w : PosWork) → Conserves w (transfer tx block w)
unfolding transfer supply
transfer-Conserves tx block w = grind (arith, total-credit, total-debit)

apply_stake-Conserves :
    (tx : Transaction) (block : Block) (w : PosWork) → Conserves w (apply_stake tx block w)
unfolding apply_stake supply
apply_stake-Conserves tx block w = grind (arith, total-credit, total-debit)

supply-release_stake :
    (cfg : Config) (tx : Transaction) (block : Block) (w : PosWork)
    → supply (release_stake cfg tx block w) ≡ supply w + units tx.amount
unfolding release_stake supply
supply-release_stake cfg tx block w = grind (arith, total-credit, unbonding_total-push)

drop_validator-total :
    (a : Text) (stakes : Balances) → Returns (λ s. total s ≡ total stakes) (drop_validator a stakes)
unfolding drop_validator
drop_validator-total a stakes = ground (arith, total-erase a stakes)

pub release_stake_stakes :
    (cfg : Config) (tx : Transaction) (block : Block) (w : PosWork)
    → (release_stake cfg tx block w).aux.stakes ≡ w.aux.stakes
unfolding release_stake
release_stake_stakes cfg tx block w = ground arith

apply_unstake-Conserves :
    (cfg : Config) (tx : Transaction) (block : Block) (w : PosWork)
    → Conserves w (apply_unstake cfg tx block w)
unfolding apply_unstake supply
apply_unstake-Conserves cfg tx block w = grind (
  arith, total-credit, total-debit, supply-release_stake, release_stake_stakes,
  drop_validator-total,
)

supply-confiscate :
    (reporter offender treasury : Text) (key : Offense) (w : PosWork)
    → supply (confiscate reporter offender treasury key w) ≡ supply w
unfolding confiscate supply
supply-confiscate reporter offender treasury key w =
    let share : ℕ = reporter_share (bonded_of offender w.aux) in
    let who : Text = beneficiary reporter offender treasury in
    omega (
      arith,
      total-credit treasury (bonded_of offender w.aux - share) (credit who share w.balances),
      total-credit who share w.balances,
      total-erase offender w.aux.stakes,
      unbonding_total-erase offender w.aux.unbonding,
    )

settle_slash-Conserves :
    (treasury : Text) (found : Text × Offense) (tx : Transaction) (block : Block) (w : PosWork)
    → Conserves w (settle_slash treasury found tx block w)
unfolding settle_slash supply
settle_slash-Conserves treasury (offender, key) tx block w =
    grind (arith, total-credit, total-debit, supply-confiscate)

apply_slash-Conserves :
    ⦃p : Primitives⦄ (cfg : Config) (tx : Transaction) (block : Block) (w : PosWork)
    → Conserves w (apply_slash cfg tx block w)
unfolding apply_slash
apply_slash-Conserves cfg tx block w = grind (arith, settle_slash-Conserves)

pub justify_bonds :
    (cfg : Config) (l : Link) (aux : Aux)
    → ((justify cfg l aux).stakes ≡ aux.stakes) × ((justify cfg l aux).unbonding ≡ aux.unbonding)
unfolding justify
justify_bonds cfg l aux = ground arith

cast_vote-Conserves :
    (cfg : Config) (l : Link) (tx : Transaction) (block : Block) (w : PosWork)
    → units tx.fee ≤ get_or tx.sender 0 w.balances
    → Conserves w (cast_vote cfg l tx block w)
unfolding cast_vote supply record_vote
cast_vote-Conserves cfg l tx block w h = grind (arith, total-credit, total-debited, justify_bonds)

-- A vote that passes the tests pays its fee from the balance.
pub check_vote_funds :
    (cfg : Config) (l : Link) (tx : Transaction) (w : PosWork)
    → Returns (λ _. units tx.fee ≤ get_or tx.sender 0 w.balances) (check_vote cfg l tx w)
unfolding check_vote
check_vote_funds cfg l tx w = ground arith

module _ ⦃p : Primitives⦄ (cfg : Config) (tx : Transaction) (block : Block) (w : PosWork) where
  apply_vote-Conserves : Conserves w (apply_vote cfg tx block w)
  unfolding apply_vote
  apply_vote-Conserves = grind (arith, check_vote_funds, cast_vote-Conserves)

  vest-Conserves : (r : Result PosWork) → Conserves w r → Conserves w (r >>= vest cfg tx block)
  vest-Conserves (err e) h = tt
  vest-Conserves (ok w') h = ground arith

  -- Whatever its kind, a transaction that is applied leaves the sum of all liquid, staked and
  -- unbonding units as it was.
  pub apply_tx-Conserves : Conserves w (apply_tx cfg tx block w)
  unfolding apply_tx
  apply_tx-Conserves = ground (
    arith,
    vest-Conserves (apply_stake tx block w) (apply_stake-Conserves tx block w),
    vest-Conserves (apply_unstake cfg tx block w) (apply_unstake-Conserves cfg tx block w),
    vest-Conserves (transfer tx block w) (transfer-Conserves tx block w),
    apply_slash-Conserves cfg tx block w,
    apply_vote-Conserves,
  )
