-- ===== src/Tests/Finality.antt =====
-- The theorems on conflicting finality, at two chains that the votes of one validator finalize, and on
-- evidence in either order.
use mindees_blockchain.Prelude.{◌≡◌}
use mindees_blockchain.Consensus.Finality.Records.{ffg, IsBacked}
use mindees_blockchain.Consensus.Finality.Chains.{FreshRun-IsBacked}
use mindees_blockchain.Consensus.Finality.Accountable.{Conflict}
use mindees_blockchain.Consensus.Finality.Culprits.{Exposed, opposed_links, accountable_safety}
use mindees_blockchain.Result.{ok}
use mindees_blockchain.Tests.Toy.{toy}
use mindees_blockchain.Tests.Blocks.{genesis_args, chain₀, start}
use mindees_blockchain.Tests.Blocks.Conflict.{
  left_chain₃, right_chain₃, left_run, right_run, left-IsStatic, right-IsStatic, both_apart,
  final_above, final_ordered,
}
use mindees_blockchain.Consensus.Slash.{read_offense}
use mindees_blockchain.Consensus.Symmetry.{offense_either_order}
use mindees_blockchain.Tests.Blocks.Faults.{
  two_votes, two_votes_back, two_votes_found, two_votes_prove, two_votes_turned,
}

FreshRun-IsBacked_example : IsBacked (ffg left_chain₃.self.state) genesis_args.epoch
FreshRun-IsBacked_example = FreshRun-IsBacked genesis_args start left_run

opposed_links_example :
    Conflict (ffg left_chain₃.self.state) (ffg right_chain₃.self.state) genesis_args.epoch
opposed_links_example =
    opposed_links genesis_args start left_run right_run final_above final_ordered both_apart

accountable_safety_example :
    Exposed
      (ffg left_chain₃.self.state)
      (ffg right_chain₃.self.state)
      genesis_args.epoch
      chain₀.self.state.stakes
accountable_safety_example =
    accountable_safety genesis_args start left_run right_run left-IsStatic right-IsStatic
      final_above final_ordered both_apart

offense_either_order_example : read_offense two_votes_back ≡ ok two_votes_found
offense_either_order_example =
    offense_either_order two_votes two_votes_back two_votes_turned.0 two_votes_turned.1
      two_votes_turned.2 two_votes_prove
