-- ===== src/Tests/Blocks/Faults.antt =====
-- Two votes of Bob for the first height, as slashing evidence in either order.
use mindees_blockchain.Prelude.{◌≡◌, refl, Text, text}
use mindees_blockchain.Json.{Json, str, Fields, end, field, lookup}
use mindees_blockchain.Core.Transaction.{Transaction}
use mindees_blockchain.Core.Block.{hash}
use mindees_blockchain.Network.Codec.{encode_tx, decode_tx}
use mindees_blockchain.Consensus.State.{Offense}
use mindees_blockchain.Consensus.Evidence.{
  fault_link, offense_id, verify_vote_fault, is_double, is_surround,
}
use mindees_blockchain.Consensus.Build.{vote_tx}
use mindees_blockchain.Consensus.Slash.{read_offense, is_vote_kind}
use mindees_blockchain.Result.{ok}
use mindees_blockchain.Tests.Toy.{toy, bob, result_of}
use mindees_blockchain.Tests.Blocks.{the_program, chain₀, vote}

-- To another block than the first vote.
abbrev pub other_vote : Transaction
unfolding the_program
other_vote = result_of (vote_tx bob (hash chain₀.head) 0 (text "other") 1 1 2) tt

abbrev pub evidence_of : Json → Json → Fields
evidence_of a b =
    field (text "kind") (str (text "vote")) (field (text "a") a (field (text "b") b end))

abbrev pub two_votes : Fields
unfolding encode_tx
two_votes = evidence_of (encode_tx vote) (encode_tx other_vote)

abbrev pub two_votes_back : Fields
unfolding encode_tx
two_votes_back = evidence_of (encode_tx other_vote) (encode_tx vote)

abbrev pub two_votes_found : Text × Offense
unfolding the_program encode_tx decode_tx read_offense is_vote_kind verify_vote_fault fault_link
    is_double is_surround offense_id
two_votes_found = result_of (read_offense two_votes) tt

pub two_votes_prove : read_offense two_votes ≡ ok two_votes_found
unfolding the_program encode_tx decode_tx read_offense is_vote_kind verify_vote_fault fault_link
    is_double is_surround offense_id
two_votes_prove = refl

pub two_votes_turned :
    (lookup (text "kind") two_votes_back ≡ lookup (text "kind") two_votes)
    × (lookup (text "a") two_votes_back ≡ lookup (text "b") two_votes)
    × (lookup (text "b") two_votes_back ≡ lookup (text "a") two_votes)
unfolding the_program two_votes two_votes_back
two_votes_turned = (refl, refl, refl)
