-- ===== src/Tests/Rules.antt =====
-- The theorems on the consensus rules, at the blocks of the toy chain.
use mindees_blockchain.Prelude.{
  ◌≤◌, ◌<◌, ◌≡◌, ◌≢◌, refl, inl, true, [], ◌∷◌, arith, Text_eq, pair_eq, ℕ_eq, All, Text, ℕ,
}
use mindees_blockchain.Dict.{get, member}
use mindees_blockchain.Json.{units}
use mindees_blockchain.Core.Block.{Block}
use mindees_blockchain.Core.Chain.{max_supply_units}
use mindees_blockchain.Core.Chain.Distinct.{IsFresh, submit_block_distinct}
use mindees_blockchain.Consensus.State.{Offense_eq, total_supply}
use mindees_blockchain.Consensus.Rules.{apply_tx, pos_hooks, submit}
use mindees_blockchain.Consensus.Reach.{here, next}
use mindees_blockchain.Consensus.Supply.Transactions.{Conserves, apply_tx-Conserves}
use mindees_blockchain.Consensus.Supply.Genesis.{Reach-supply}
use mindees_blockchain.Consensus.Replay.{submit-spends, submit_no_replay}
use mindees_blockchain.Consensus.Nonces.{nonce_of}
use mindees_blockchain.Consensus.Linked.{IsLinked, Reach-IsLinked}
use mindees_blockchain.Consensus.Typed.{AreTyped, Reach-AreTyped}
use mindees_blockchain.Consensus.History.Reach.{Reach-keeps_records}
use mindees_blockchain.Result.{ok}
use mindees_blockchain.Tests.Toy.{toy}
use mindees_blockchain.Tests.Blocks.{
  genesis_args, chain₀, start, payment, payment_included, block₁, chain₁, first, vote, block₂,
  chain₂, second, work₂, slashing, slashing_next, slashed₂,
}

apply_tx-Conserves_example : Conserves work₂ (apply_tx chain₁.self.config vote block₂ work₂)
apply_tx-Conserves_example = apply_tx-Conserves chain₁.self.config vote block₂ work₂

Reach-supply_example : total_supply chain₂ ≡ max_supply_units
Reach-supply_example = Reach-supply genesis_args start (next block₂ (next block₁ here first) second)

submit-spends_example :
    (nonce_of payment.sender chain₀ ≤ units payment.nonce)
    × (units payment.nonce < nonce_of payment.sender chain₁)
submit-spends_example = submit-spends chain₀ block₁ payment first payment_included

-- The second block with the payment of the first in the place of its vote.
abbrev replay : Block
replay = record block₂ { transactions = payment ∷ [] }

submit_no_replay_example : submit chain₂ replay ≢ ok chain₂
submit_no_replay_example =
    submit_no_replay chain₀ block₁ replay payment payment first payment_included
      (next block₂ here second) (inl refl) refl (omega arith)

Reach-IsLinked_example : IsLinked chain₂
Reach-IsLinked_example =
    Reach-IsLinked genesis_args start (next block₂ (next block₁ here first) second)

Reach-keeps_records_example :
    All (λ k. member k slashed₂.self.state.slashed ≡ true) slashing.self.state.slashed
    × All (λ v. member v slashed₂.self.state.slashed_addrs ≡ true) slashing.self.state.slashed_addrs
    × All (λ h. member h slashed₂.self.state.justified ≡ true) slashing.self.state.justified
    × All
        (λ (e : (Text × ℕ) × (Text × Text)).
          get e.0 slashed₂.self.state.ffg_seen_target ≡ get e.0 slashing.self.state.ffg_seen_target)
        slashing.self.state.ffg_seen_target
    × (slashing.self.state.finalized.1 ≤ slashed₂.self.state.finalized.1)
Reach-keeps_records_example = Reach-keeps_records (next block₂ here slashing_next)

submit_block_distinct_example : IsFresh [] block₂.transactions
unfolding submit
submit_block_distinct_example = submit_block_distinct pos_hooks chain₁ block₂ second

Reach-AreTyped_example : AreTyped chain₂
Reach-AreTyped_example =
    Reach-AreTyped genesis_args start (next block₂ (next block₁ here first) second)
