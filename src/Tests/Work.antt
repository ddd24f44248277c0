-- ===== src/Tests/Work.antt =====
-- The theorems on elections, vesting and slashing, at the blocks of the toy chain.
use mindees_blockchain.Prelude.{
  ◌*◌, ◌/◌, ◌-◌, ◌==◌, if◌then◌else◌, ◌+◌, ◌%◌, ◌≤◌, ◌<◌, ◌≡◌, ◌≢◌, refl, true, false, [], ◌∷◌,
  Text, text, arith, Text_eq, text_eq_iff, text_eq,
}
use mindees_blockchain.Dict.{get_or, member, IsUnique, total, contains}
use mindees_blockchain.Json.{units}
use mindees_blockchain.Core.Encoding.{from_bytes}
use mindees_blockchain.Core.Chain.{Balances}
use mindees_blockchain.Core.Transaction.{slash_sentinel, vote_sentinel}
use mindees_blockchain.Consensus.State.{block_fault, Offense_eq, bonded_in}
use mindees_blockchain.Consensus.Stake.{holding, locked_at}
use mindees_blockchain.Consensus.Slash.{settle_slash, bonded_of}
use mindees_blockchain.Consensus.Reach.{here}
use mindees_blockchain.Consensus.Election.{elect_validator, sorted, active}
use mindees_blockchain.Consensus.Election.Draw.{Drawn, elect_validator_wins}
use mindees_blockchain.Consensus.Lock.{apply_tx_keeps_lock, vote_escapes_lock}
use mindees_blockchain.Consensus.History.Reach.{slashed_once}
use mindees_blockchain.Consensus.Confiscation.{settle_slash_takes, settle_slash_pays}
use mindees_blockchain.Result.{ok, err, invalid, already_slashed}
use mindees_blockchain.Tests.Toy.{toy}
use mindees_blockchain.Tests.Blocks.{
  chain₁, vote, bond, block₂, work₂, voted, vote_applies, bonded, bond_applies, grant, bond_grant,
  vote_at_the_edge, bond_elsewhere, vote_to_another, slashing, after_vote, vote_runs, slashing_done,
  guilty, report, settled, report_settles, guilty-IsUnique, all_apart,
}

abbrev two_stakes : Balances
two_stakes = (text "a", 30) ∷ (text "b", 70) ∷ []

two_stakes_differ : IsUnique two_stakes
unfolding contains text_eq
two_stakes_differ = (refl, (refl, tt))

two_stakes_hold : 0 < total two_stakes
unfolding total
two_stakes_hold = omega arith

elect_validator_wins_example :
    (a : Text) × (elect_validator two_stakes (1 ∷ 2 ∷ []) ≡ ok a)
    × Drawn two_stakes
        (from_bytes 0 (1 ∷ 2 ∷ []) % total two_stakes)
        0
        (sorted (active two_stakes))
        a
    × (0 < get_or a 0 two_stakes)
elect_validator_wins_example =
    elect_validator_wins two_stakes (1 ∷ 2 ∷ []) two_stakes_differ two_stakes_hold

differ : (a b : Text) → text_eq a b ≡ false → a ≢ b
differ a b h e = ground (arith, text_eq_iff a b)

bond_not_slash : bond.recipient ≢ slash_sentinel
bond_not_slash = differ bond.recipient slash_sentinel bond_elsewhere.0

bond_not_vote : bond.recipient ≢ vote_sentinel
bond_not_vote = differ bond.recipient vote_sentinel bond_elsewhere.1

apply_tx_keeps_lock_example : locked_at grant block₂.index ≤ holding bond.sender bonded
apply_tx_keeps_lock_example =
    apply_tx_keeps_lock chain₁.self.config bond block₂ grant work₂ bond_grant bond_not_slash
      bond_not_vote bond_applies

other_validator : vote.sender ≢ block₂.validator
other_validator = differ vote.sender block₂.validator vote_to_another

vote_escapes_lock_example : holding vote.sender voted < locked_at grant block₂.index
vote_escapes_lock_example =
    vote_escapes_lock chain₁.self.config vote block₂ work₂ grant vote_at_the_edge.0 other_validator
      vote_at_the_edge.1 vote_at_the_edge.2 vote_applies

slashed_once_example :
    settle_slash
      (text "treasury")
      (text "mallory", block_fault (text "mallory") 1)
      vote
      block₂
      after_vote
    ≡ err (invalid already_slashed)
slashed_once_example =
    slashed_once slashing block₂ [] (vote ∷ []) (text "treasury") (text "mallory")
      (block_fault (text "mallory") 1) vote slashing_done here vote_runs

settle_slash_takes_example :
    (bonded_of (text "mallory") settled.aux ≡ 0)
    × (member (text "mallory") settled.aux.slashed_addrs ≡ true)
    × (member (block_fault (text "mallory") 1) guilty.aux.slashed ≡ false)
    × (member (block_fault (text "mallory") 1) settled.aux.slashed ≡ true)
    × (get_or (text "a") 0 settled.aux.stakes ≡ get_or (text "a") 0 guilty.aux.stakes)
settle_slash_takes_example =
    settle_slash_takes (text "treasury") (text "mallory") (block_fault (text "mallory") 1) report
      block₂ guilty (text "a") guilty-IsUnique.0 guilty-IsUnique.1
      (differ (text "a") (text "mallory") all_apart.4) report_settles

settle_slash_pays_example :
    let bonded =
      get_or (text "mallory") 0 guilty.aux.stakes
      + bonded_in (get_or (text "mallory") [] guilty.aux.unbonding) in
    get_or report.sender 0 settled.balances
      + (if report.sender == report.sender then units report.fee else 0)
    ≡ get_or report.sender 0 guilty.balances
      + (if report.sender == block₂.validator then units report.fee else 0)
      + (if report.sender
            == (if report.sender == text "mallory" then text "treasury" else report.sender)
          then bonded * 500 / 10_000
          else 0)
      + (if report.sender == text "treasury" then bonded - bonded * 500 / 10_000 else 0)
settle_slash_pays_example =
    settle_slash_pays (text "treasury") (text "mallory") (block_fault (text "mallory") 1) report
      block₂ guilty report.sender report_settles
