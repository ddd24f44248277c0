-- ===== src/Consensus/Rules.antt =====
-- ProofOfStakeChain: the hooks of the ledger that the layer overrides.
use mindees_blockchain.Prelude.{
  ℕ, ◌+◌, ◌%◌, List, [], ◌∷◌, Text, Text_eq, ◌==◌, eqb, leb, not, if◌then◌else◌,
}
use mindees_blockchain.Dict.{Dict, put, credit}
use mindees_blockchain.Primitives.{Primitives}
use mindees_blockchain.Core.Transaction.{
  Transaction, stake_sentinel, unstake_sentinel, slash_sentinel, vote_sentinel,
}
use mindees_blockchain.Core.Block.{Block, hash}
use mindees_blockchain.Core.Chain.{Balances, Hooks, transfer, max_supply_units, submit_block}
use mindees_blockchain.Consensus.Election.{elect}
use mindees_blockchain.Consensus.State.{Bond, Aux, Config, Staking, PosChain, PosWork, supply}
use mindees_blockchain.Consensus.Evidence.{authenticated}
use mindees_blockchain.Consensus.Stake.{apply_stake, apply_unstake, enforce_vesting}
use mindees_blockchain.Consensus.Vote.{apply_vote}
use mindees_blockchain.Consensus.Slash.{apply_slash}
use mindees_blockchain.Result.{Result, ok, raise_if, ◌>>=◌, ◌>>◌, wrong_proposer, supply_violated}

-- The queue entries that stay bonded at a height, and the balances with the others paid out.
unfoldable pub remaining : ℕ → List Bond → List Bond
remaining height [] = []
remaining height (b ∷ bs) =
    if leb b.released_at height then remaining height bs else b ∷ remaining height bs

unfoldable pub pay_out : ℕ → Text → List Bond → Balances → Balances
pay_out height a [] d = d
pay_out height a (b ∷ bs) d =
    pay_out height a bs (if leb b.released_at height then credit a b.amount d else d)

-- `unbonding[addr] = remaining`, or the key removed where nothing remains
abbrev pub keep_queue : Text → List Bond → Dict Text (List Bond) → Dict Text (List Bond)
keep_queue a [] u = u
keep_queue a (b ∷ bs) u = (a, b ∷ bs) ∷ u

-- The loop of `_apply_block_pre` over the queues, whose keys are distinct.
unfoldable pub mature : ℕ → Dict Text (List Bond) → Balances → Dict Text (List Bond) × Balances
unfolding remaining pay_out
mature height [] d = ([], d)
mature height ((a, q) ∷ u) d =
    let (rest, d') = mature height u (pay_out height a q d) in
    (keep_queue a (remaining height q) rest, d')

-- The vesting test at the end of `_apply_tx`.
abbrev pub vest : Config → Transaction → Block → PosWork → Result PosWork
vest cfg tx block w = enforce_vesting cfg tx.sender block.index w >> ok w

module _ ⦃p : Primitives⦄ where
  -- The stake at an epoch boundary is frozen under the hash of the block.
  unfoldable pub snapshot_checkpoint : ℕ → Block → Aux → Aux
  snapshot_checkpoint epoch block aux =
      if eqb (block.index % epoch) 0
      then record aux {
        ffg_stake = put (hash block) aux.stakes aux.ffg_stake;
        ffg_height = put (hash block) block.index aux.ffg_height;
      }
      else aux

  unfoldable pub apply_block_pre : Config → Block → PosWork → PosWork
  unfolding mature snapshot_checkpoint
  apply_block_pre cfg block w =
      let (queues, balances) = mature block.index w.aux.unbonding w.balances in
      record w {
        balances = balances;
        aux =
            snapshot_checkpoint cfg.epoch block
              (record (w.aux) { unbonding = queues; justified_parent = w.aux.justified });
      }

  -- A slash or a vote returns before the vesting test.
  unfoldable pub apply_tx : Config → Transaction → Block → PosWork → Result PosWork
  apply_tx cfg tx block w =
      if tx.recipient == stake_sentinel
      then apply_stake tx block w >>= vest cfg tx block
      else if tx.recipient == unstake_sentinel
      then apply_unstake cfg tx block w >>= vest cfg tx block
      else if tx.recipient == slash_sentinel
      then apply_slash cfg tx block w
      else if tx.recipient == vote_sentinel
      then apply_vote cfg tx block w
      else transfer tx block w >>= vest cfg tx block

  unfoldable pub check_proposer : PosChain → Block → Result (Unit {0})
  check_proposer c block = do
    expected ← elect c.self.state.stakes block.previous_hash block.index
    raise_if (not (block.validator == expected)) wrong_proposer
    authenticated block

unfoldable pub check_supply : PosWork → Result (Unit {0})
check_supply w = raise_if (not (eqb (supply w) max_supply_units)) supply_violated

-- The copies of `_snapshot_aux`, which a pure model need not copy.
abbrev pub snapshot_aux : Staking → Aux
snapshot_aux s = record (s.state) { justified_parent = [] }

abbrev pub commit_aux : Aux → Staking → Staking
commit_aux aux s = record s { state = record aux { justified_parent = [] } }

module _ ⦃p : Primitives⦄ where
  abbrev pub pos_hooks : Hooks Staking Aux
  pos_hooks = record {
    check_proposer = check_proposer;
    snapshot_aux = snapshot_aux;
    apply_block_pre = λ s block w. apply_block_pre s.config block w;
    apply_tx = λ s tx block w. apply_tx s.config tx block w;
    check_supply = check_supply;
    commit_aux = commit_aux;
  }

  -- ProofOfStakeChain.submit_block, inherited
  unfoldable pub submit : PosChain → Block → Result PosChain
  submit c block = submit_block pos_hooks c block

  -- ProofOfStakeChain.next_validator
  unfoldable pub next_validator : PosChain → Result Text
  next_validator c = elect c.self.state.stakes (hash c.head) (c.head.index + 1)
