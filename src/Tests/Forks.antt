-- ===== src/Tests/Forks.antt =====
-- The theorems on the block tree, the validators, quorums and accounts, at the toy chain.
use mindees_blockchain.Prelude.{
  ◌*◌, ◌≤◌, ◌<◌, ◌≡◌, ◌≢◌, ◌⊎◌, refl, true, none, [], ◌∷◌, List, Text, text, arith, Text_eq,
  text_eq, text_eq_iff,
}
use mindees_blockchain.Dict.{get_or, IsUnique, contains, member}
use mindees_blockchain.Core.Block.{hash}
use mindees_blockchain.Core.Chain.{Balances, amounts}
use mindees_blockchain.Core.Encoding.{sha256}
use mindees_blockchain.Primitives.{Bytes}
use mindees_blockchain.Consensus.State.{PosChain}
use mindees_blockchain.Consensus.Evidence.{Link, claim, is_double}
use mindees_blockchain.Consensus.Vote.{voted_stake, quorum_stake, is_supermajority}
use mindees_blockchain.Consensus.Quorum.{IsDistinct, common, quorums_expose_third}
use mindees_blockchain.Consensus.Reach.{here, next}
use mindees_blockchain.Consensus.Rules.{next_validator}
use mindees_blockchain.Consensus.Validators.{ValidStakes}
use mindees_blockchain.Consensus.Liveness.{AreBytes, Reach-ValidStakes}
use mindees_blockchain.Consensus.Accounts.{settle_blocks}
use mindees_blockchain.Consensus.Refinement.{held}
use mindees_blockchain.Consensus.Runs.{run_refines_accounts, run_has_proposer}
use mindees_blockchain.ForkChoice.{parent_chain, chain_at}
use mindees_blockchain.ForkChoice.Replay.{parent_chain_equiv, known_replays}
use mindees_blockchain.ForkChoice.Errors.{Kept, add_block_raises}
use mindees_blockchain.Result.{ok, invalid, orphan}
use mindees_blockchain.Tests.Toy.{toy}
use mindees_blockchain.Tests.Blocks.{genesis_args, start, chain₂, block₁, block₂, first, second}
use mindees_blockchain.Tests.Blocks.Tree.{
  young_tree, orphaned, tree₁, tree₁-Grown, block₁_known, some_stake, two_blocks,
}

parent_chain_equiv_example : parent_chain tree₁ block₂ ≡ chain_at tree₁ block₂.previous_hash
parent_chain_equiv_example = parent_chain_equiv genesis_args none block₂ tree₁-Grown

known_replays_example : (c : PosChain) × (chain_at tree₁ (hash block₁) ≡ ok c)
known_replays_example = known_replays genesis_args none (hash block₁) tree₁-Grown block₁_known

add_block_raises_example : (young_tree ≡ young_tree) ⊎ Kept young_tree block₂ young_tree
add_block_raises_example = add_block_raises young_tree block₂ (invalid orphan) young_tree orphaned

Reach-ValidStakes_example : ValidStakes chain₂.self.state.stakes
Reach-ValidStakes_example =
    Reach-ValidStakes genesis_args start (next block₂ (next block₁ here first) second)

toy_digests : (m : Bytes) → AreBytes (sha256 m)
unfolding sha256
toy_digests m = (omega arith, (omega arith, (omega arith, (omega arith, tt))))

run_has_proposer_example :
    (a : Text) × (next_validator chain₂ ≡ ok a) × (0 < get_or a 0 chain₂.self.state.stakes)
run_has_proposer_example = run_has_proposer genesis_args toy_digests start some_stake two_blocks

run_refines_accounts_example :
    held chain₂ (text "carol")
    ≡ settle_blocks
        (block₂ ∷ block₁ ∷ [])
        (λ b. get_or b 0 (amounts genesis_args.allocations))
        (text "carol")
run_refines_accounts_example = run_refines_accounts genesis_args start two_blocks (text "carol")

abbrev three_stakes : Balances
three_stakes = (text "a", 30) ∷ (text "b", 70) ∷ (text "c", 50) ∷ []

abbrev to_t : Link
to_t = record { s = text "s"; sh = 0; t = text "t"; th = 4 }

abbrev to_u : Link
to_u = record { s = text "s"; sh = 0; t = text "u"; th = 4 }

abbrev early : List Text
early = text "a" ∷ text "b" ∷ []

abbrev late : List Text
late = text "b" ∷ text "c" ∷ []

three_differ : IsUnique three_stakes
unfolding contains text_eq
three_differ = (refl, (refl, (refl, tt)))

early-IsDistinct : IsDistinct early
unfolding member text_eq
early-IsDistinct = (refl, (refl, tt))

late-IsDistinct : IsDistinct late
unfolding member text_eq
late-IsDistinct = (refl, (refl, tt))

apart : text "t" ≢ text "u"
unfolding text_eq
apart e = ground (arith, (text_eq_iff (text "t") (text "u")).1 e)

early_wins :
    is_supermajority (voted_stake three_stakes [] early) (quorum_stake [] three_stakes) ≡ true
unfolding is_supermajority voted_stake quorum_stake member get_or text_eq
early_wins = refl

late_wins :
    is_supermajority (voted_stake three_stakes [] late) (quorum_stake [] three_stakes) ≡ true
unfolding is_supermajority voted_stake quorum_stake member get_or text_eq
late_wins = refl

quorums_expose_third_example :
    (quorum_stake [] three_stakes ≤ 3 * voted_stake three_stakes [] (common early late))
    × (0 < voted_stake three_stakes [] (common early late))
    × (is_double (claim to_t) (claim to_u) ≡ true)
quorums_expose_third_example =
    quorums_expose_third three_stakes [] early late to_t to_u three_differ early-IsDistinct
      late-IsDistinct refl apart early_wins late_wins
