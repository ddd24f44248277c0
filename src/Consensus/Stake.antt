-- ===== src/Consensus/Stake.antt =====
-- ProofOfStakeChain._apply_tx, the branches that stake and unstake, and _enforce_vesting.
use mindees_blockchain.Prelude.{
  ℕ, ◌+◌, none, some, List, [], ◌∷◌, ◌++◌, Text, Text_eq, ltb, leb, eqb, if◌then◌else◌, length,
}
use mindees_blockchain.Dict.{Dict, get, get_or, put, erase, credit}
use mindees_blockchain.Json.{units}
use mindees_blockchain.Core.Transaction.{Transaction}
use mindees_blockchain.Core.Block.{Block}
use mindees_blockchain.Core.Chain.{Balances}
use mindees_blockchain.Vesting.{locked}
use mindees_blockchain.Consensus.State.{Bond, Grant, Config, PosWork, bonded_in, debit}
use mindees_blockchain.Result.{
  Result, ok, raise_if, ◌>>=◌, ◌>>◌, insufficient_funds, insufficient_stake, last_validator,
  vesting_locked,
}

-- recipient STAKE_SENTINEL
unfoldable pub apply_stake : Transaction → Block → PosWork → Result PosWork
unfolding debit
apply_stake tx block w = do
  let cost = units tx.amount + units tx.fee
  raise_if (ltb (get_or tx.sender 0 w.balances) cost) insufficient_funds
  paid ← debit tx.sender cost w.balances
  ok (record {
    balances = credit block.validator (units tx.fee) paid;
    nonces = put tx.sender (units tx.nonce + 1) w.nonces;
    aux = record (w.aux) { stakes = credit tx.sender (units tx.amount) w.aux.stakes };
  })

-- `unbonding.setdefault(sender, []).append(entry)`
unfoldable pub push_bond : Text → Bond → Dict Text (List Bond) → Dict Text (List Bond)
push_bond a b u = put a (get_or a [] u ++ b ∷ []) u

-- Where the unstaked amount goes: into the queue, or back to the balance.
unfoldable pub release_stake : Config → Transaction → Block → PosWork → PosWork
unfolding push_bond
release_stake cfg tx block w =
    if ltb 0 cfg.unbonding_blocks
    then record w {
      aux = record (w.aux) {
        unbonding =
            push_bond tx.sender
              (record {
                amount = units tx.amount;
                bonded_at = block.index;
                released_at = block.index + cfg.unbonding_blocks;
              })
              w.aux.unbonding;
      };
    }
    else record w { balances = credit tx.sender (units tx.amount) w.balances }

-- A validator with nothing left is removed, unless it is the last one.
unfoldable pub drop_validator : Text → Balances → Result Balances
drop_validator a stakes =
    if eqb (get_or a 0 stakes) 0
    then raise_if (leb (length stakes) 1) last_validator >> ok (erase a stakes)
    else ok stakes

-- recipient UNSTAKE_SENTINEL
unfoldable pub apply_unstake : Config → Transaction → Block → PosWork → Result PosWork
unfolding debit
apply_unstake cfg tx block w = do
  raise_if (ltb (get_or tx.sender 0 w.balances) (units tx.fee)) insufficient_funds
  raise_if (ltb (get_or tx.sender 0 w.aux.stakes) (units tx.amount)) insufficient_stake
  paid ← debit tx.sender (units tx.fee) w.balances
  lowered ← debit tx.sender (units tx.amount) w.aux.stakes
  let w' =
      release_stake cfg tx block
        (record { balances = paid; nonces = w.nonces; aux = record (w.aux) { stakes = lowered } })
  stakes ← drop_validator tx.sender w'.aux.stakes
  ok (record {
    balances = credit block.validator (units tx.fee) w'.balances;
    nonces = put tx.sender (units tx.nonce + 1) w'.nonces;
    aux = record (w'.aux) { stakes = stakes };
  })

-- Liquid, staked and unbonding units of an address.
unfoldable pub holding : Text → PosWork → ℕ
unfolding bonded_in
holding a w =
    get_or a 0 w.balances + get_or a 0 w.aux.stakes + bonded_in (get_or a [] w.aux.unbonding)

unfoldable pub locked_at : Grant → ℕ → ℕ
locked_at g height = locked g.amount g.start g.cliff g.duration height

-- ProofOfStakeChain._enforce_vesting
unfoldable pub enforce_vesting : Config → Text → ℕ → PosWork → Result (Unit {0})
unfolding holding
enforce_vesting cfg a height w = elim (get a cfg.vesting) [
  | none ↦ ok tt
  | some g ↦
      if eqb (locked_at g height) 0
      then ok tt
      else raise_if (ltb (holding a w) (locked_at g height)) vesting_locked
]
