-- ===== src/Tests/Blocks/Tree.antt =====
-- The tree that holds the first block of the toy chain.
use mindees_blockchain.Prelude.{
  ◌≡◌, ◌≢◌, ◌<◌, length, text_eq_iff, true, false, none, some, [], ◌∷◌, refl, Text_eq, arith,
  text_eq,
}
use mindees_blockchain.Dict.{contains}
use mindees_blockchain.Core.Block.{hash}
use mindees_blockchain.Core.Transaction.{slash_sentinel}
use mindees_blockchain.Consensus.Runs.{PlainRun, started, accepted}
use mindees_blockchain.Consensus.Liveness.{NoSlash}
use mindees_blockchain.ForkChoice.{BlockTree, init_tree, add_block}
use mindees_blockchain.ForkChoice.Replay.{Grown, young, grow}
use mindees_blockchain.Core.Signature.{address}
use mindees_blockchain.Peers.{vote_target, vote_source}
use mindees_blockchain.Driver.{Ballot, ballot}
use mindees_blockchain.Result.{ok, err, invalid, orphan}
use mindees_blockchain.Tests.Toy.{alice, toy}
use mindees_blockchain.Tests.Blocks.{
  the_program, genesis_args, chain₀, chain₁, chain₂, block₁, block₂, first, second, payment, vote,
}

abbrev pub young_tree : BlockTree
young_tree = record {
  args = genesis_args;
  canonical = chain₀;
  genesis_hash = hash chain₀.head;
  head_hash = hash chain₀.head;
  ws_checkpoint = none;
  finalized_hash = hash chain₀.head;
  finalized_height = 0;
  blocks = [];
  parent = [];
  weight = (hash chain₀.head, 0) ∷ [];
  height = (hash chain₀.head, 0) ∷ [];
}

planted : init_tree genesis_args none ≡ ok young_tree
unfolding the_program init_tree
planted = refl

abbrev pub tree₁ : BlockTree
unfolding the_program add_block
tree₁ = (add_block young_tree block₁).1

added : add_block young_tree block₁ ≡ (ok true, tree₁)
unfolding the_program add_block
added = refl

-- The second block comes before its parent.
pub orphaned : add_block young_tree block₂ ≡ (err (invalid orphan), young_tree)
unfolding the_program add_block
orphaned = refl

pub tree₁-Grown : Grown genesis_args none tree₁
tree₁-Grown = grow block₁ (young planted) added

pub block₁_known : contains (hash block₁) tree₁.weight ≡ true
unfolding the_program add_block
block₁_known = refl

payment_elsewhere : text_eq payment.recipient slash_sentinel ≡ false
unfolding the_program
payment_elsewhere = refl

payment_plain : payment.recipient ≢ slash_sentinel
payment_plain e = ground (arith, text_eq_iff payment.recipient slash_sentinel, payment_elsewhere)

block₁_plain : NoSlash block₁.transactions
unfolding the_program
block₁_plain = (payment_plain, tt)

vote_elsewhere : text_eq vote.recipient slash_sentinel ≡ false
unfolding the_program
vote_elsewhere = refl

vote_plain : vote.recipient ≢ slash_sentinel
vote_plain e = ground (arith, text_eq_iff vote.recipient slash_sentinel, vote_elsewhere)

block₂_plain : NoSlash block₂.transactions
unfolding the_program
block₂_plain = (vote_plain, tt)

pub two_blocks : PlainRun chain₀ (block₂ ∷ block₁ ∷ []) chain₂
two_blocks = accepted block₂ (accepted block₁ started block₁_plain first) block₂_plain second

pub some_stake : 0 < length genesis_args.initial_stakes
unfolding the_program
some_stake = omega arith

-- Alice may vote to finalize the first block.
abbrev pub first_ballot : Ballot
first_ballot = record { source = (hash chain₀.head, 0); target = block₁ }

pub balloted : ballot (address alice) chain₁ ≡ some first_ballot
unfolding the_program ballot vote_target vote_source
balloted = refl
