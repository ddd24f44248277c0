-- ===== src/Driver.antt =====
-- gh_chain.py: the scheduled run that advances a chain of one validator. The environment, the clock
-- and the files are arguments.
pub mod Ballots
use mindees_blockchain.Prelude.{
  ℕ, zero, suc, ◌+◌, ◌*◌, Bool, Option, none, some, List, [], ◌∷◌, Text, text, Text_eq, ℕ_eq,
  pair_eq, ◌==◌, eqb, leb, not, if◌then◌else◌, map,
}
use mathlib.Core.List.{reverse}
use mindees_blockchain.Dict.{get_or, contains}
use mindees_blockchain.Json.{Json, num}
use mindees_blockchain.Primitives.{Primitives}
use mindees_blockchain.Core.Signature.{Wallet, address}
use mindees_blockchain.Core.Transaction.{Transaction}
use mindees_blockchain.Core.Block.{Block, hash}
use mindees_blockchain.Core.Chain.{coin, max_supply_units}
use mindees_blockchain.Consensus.Election.{sorted}
use mindees_blockchain.Consensus.State.{PosChain, total_supply}
use mindees_blockchain.Consensus.Build.{vote_tx}
use mindees_blockchain.Consensus.Genesis.{GenesisArgs}
use mindees_blockchain.Mempool
use mindees_blockchain.Mempool.{Pool}
use mindees_blockchain.Storage.GenesisFile.{write_genesis}
use mindees_blockchain.Service.{Service, chain_of, is_our_turn, produce_block}
use mindees_blockchain.Peers.{vote_target, vote_source, pending}
use mindees_blockchain.Result.{Result, ok, err, invalid, ◌>>=◌}

abbrev pub epoch_length : ℕ
epoch_length = 4

abbrev pub unbonding_period : ℕ
unbonding_period = 50

abbrev pub stake_coins : ℕ
stake_coins = 100_000

module _ ⦃p : Primitives⦄ where
  -- The genesis arguments of `cmd_init`: the validator holds everything.
  unfoldable pub genesis_of : Wallet → GenesisArgs
  genesis_of v = record {
    allocations = (address v, num max_supply_units) ∷ [];
    initial_stakes = (address v, num (stake_coins * coin)) ∷ [];
    timestamp = num 1_700_000_000;
    vesting = [];
    unbonding_blocks = unbonding_period;
    treasury_address = some (address v);
    epoch = epoch_length;
  }

  -- cmd_init: the genesis file afterwards
  unfoldable pub cmd_init : (Json → Text) → Wallet → Option Text → Result Text
  unfolding genesis_of
  cmd_init dumps v (some file) = ok file
  cmd_init dumps v none = write_genesis dumps (genesis_of v) none

-- What `_auto_vote` decides to vote for.
pub record Ballot : Type 0 where
  pub source : Text × ℕ
  pub target : Block

abbrev above : Text × ℕ → Block → Option Ballot
above source target =
    if leb target.index source.1 then none else some (record { source = source; target = target })

module _ ⦃p : Primitives⦄ where
  -- The link to the newest checkpoint, unless the chain has a vote of the validator for its height.
  unfoldable pub ballot_for : Text → PosChain → Option Block → Option Ballot
  ballot_for a c none = none
  ballot_for a c (some target) =
      if contains (a, target.index) c.self.state.ffg_seen_target
      then none
      else above
          (vote_source c.self.config.epoch c.self.state.justified target.index
            (reverse (c.head ∷ c.older)) c.self.state.finalized)
          target

  unfoldable pub ballot : Text → PosChain → Option Ballot
  unfolding ballot_for
  ballot a c =
      if not (contains a c.self.state.stakes)
      then none
      else ballot_for a c (vote_target c.self.config.epoch (c.head ∷ c.older))

  abbrev cast : Wallet → Service → Ballot → Result (Bool × Pool)
  cast v s b =
      vote_tx v b.source.0 b.source.1 (hash b.target) b.target.index
        (get_or (address v) 0 (chain_of s).nonces + pending (address v) s.pool) 0
      >>= λ tx. Mempool.add tx (chain_of s) s.pool

  -- A vote that the pool refuses is given up; any other exception goes on.
  abbrev with_vote : Service → Result (Bool × Pool) → Result Service
  with_vote s (ok (new, pool)) = ok (record s { pool = pool })
  with_vote s (err (invalid r)) = ok s
  with_vote s (err e) = err e

  abbrev vote_on : Wallet → Service → Option Ballot → Result Service
  vote_on v s none = ok s
  vote_on v s (some b) = with_vote s (cast v s b)

  -- _auto_vote
  unfoldable pub auto_vote : Service → Result Service
  unfolding ballot
  auto_vote s = elim s.validator [
    | none ↦ ok s
    | some v ↦ vote_on v s (ballot (address v) (chain_of s))
  ]

  module _ (line_of : Json → Text) where
    abbrev counted : Result Block × Service → Result ℕ × Service
    counted (err e, s) = (err e, s)
    counted (ok b, s) = (ok 1, s)

    -- One round of the loop of `cmd_tick`: how many blocks it made, and the node afterwards.
    unfoldable pub round : ℕ → Service → Result ℕ × Service
    unfolding auto_vote
    round timestamp s = elim (auto_vote s) [
      | err e ↦ (err e, s)
      | ok s' ↦ elim (is_our_turn s') [
        | err e ↦ (err e, s')
        | ok ours ↦ if ours then counted (produce_block line_of s' (num timestamp)) else (ok 0, s')
      ]
    ]

    abbrev more : ℕ → Result ℕ × Service → Result ℕ × Service
    more n (err e, s) = (err e, s)
    more n (ok m, s) = (ok (n + m), s)

    -- The loop of `cmd_tick`, with the time of its next round.
    unfoldable pub cmd_tick : ℕ → ℕ → Service → Result ℕ × Service
    unfolding round
    cmd_tick zero time s = (ok 0, s)
    cmd_tick (suc blocks) time s =
        let (made, s') = round time s in
        let rest = cmd_tick blocks (time + 1) s' in
        elim made [ err e ↦ (err e, s') | ok n ↦ more n rest ]

-- What `_write_status` reports of the chain.
pub record Status : Type 0 where
  pub height : ℕ
  pub head : Text
  pub finalized_height : ℕ
  pub finalized_hash : Text
  pub supply : ℕ
  pub max_supply : ℕ
  pub supply_ok : Bool
  pub validators : List Text

module _ ⦃p : Primitives⦄ where
  unfoldable pub status : Service → Status
  status s = record {
    height = (chain_of s).head.index;
    head = hash (chain_of s).head;
    finalized_height = s.tree.finalized_height;
    finalized_hash = s.tree.finalized_hash;
    supply = total_supply (chain_of s);
    max_supply = max_supply_units;
    supply_ok = eqb (total_supply (chain_of s)) max_supply_units;
    validators = sorted (map (λ (e : Text × ℕ). e.0) (chain_of s).self.state.stakes);
  }
