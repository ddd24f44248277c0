-- ===== src/Tests/Blocks/Fuzzed.antt =====
-- The first chain of the fuzzer over the toy primitives.
use mindees_blockchain.Prelude.{
  ◌≡◌, ◌∷◌, [], refl, text_eq, false, Text_eq, arith, text_eq_iff, All,
}
use mindees_blockchain.Dict.{get_or}
use mindees_blockchain.Core.Signature.{address}
use mindees_blockchain.Core.Transaction.{
  stake_sentinel, unstake_sentinel, slash_sentinel, vote_sentinel,
}
use mindees_blockchain.Consensus.State.{PosChain}
use mindees_blockchain.Consensus.Genesis.{init}
use mindees_blockchain.Consensus.Validators.{AreStaffed}
use mindees_blockchain.Mempool.{
  add, add_within, make_room, select, by_sender, ready, merge, sort_by_nonce, insert_by_nonce,
  ready_run, cost, best_head, advance,
}
use mindees_blockchain.Consensus.Queries.{stake_of}
use mindees_blockchain.Consensus.Rules.{next_validator}
use mindees_blockchain.Consensus.Build.{add_block}
use mindees_blockchain.Core.Chain.{balance_of, is_valid_chain}
use mindees_blockchain.Fuzz.{
  Outcome, played, failed, accepted_defect, raised, Draws, fuzz, fresh_chain, rounds, iteration,
  valid_round, valid_block, invalid_round, defect_block, fill, drawn, elected_wallet,
  check_invariants, all_values, transfer_op, overspend, fuzz_args, actors, pariah, genesis_params,
  each_holds,
}
use mindees_blockchain.Fuzz.Refusals.{IsPlain}
use mindees_blockchain.Result.{ok}
use mindees_blockchain.Tests.Toy.{alice, bob, result_of, result_of-Succeeds, toy}
use mindees_blockchain.Tests.Blocks.{the_program}

abbrev pub fuzzed : PosChain
unfolding the_program genesis_params each_holds
fuzzed = result_of (init fuzz_args) tt

pub fuzzed_start : init fuzz_args ≡ ok fuzzed
unfolding the_program genesis_params each_holds
fuzzed_start = result_of-Succeeds (init fuzz_args) tt

pub pariah_unstaked : get_or (address pariah) 0 fuzzed.self.state.stakes ≡ 0
unfolding the_program genesis_params each_holds
pariah_unstaked = refl

pub fuzzed-AreStaffed : AreStaffed fuzzed.self.state.stakes
unfolding the_program genesis_params each_holds AreStaffed
fuzzed-AreStaffed =
    (((refl, (refl, (refl, tt))), (omega arith, (omega arith, (omega arith, tt)))), omega arith)

IsPlain-of_tests :
    (a : _)
    → (text_eq a stake_sentinel ≡ false)
      × (text_eq a unstake_sentinel ≡ false)
      × (text_eq a slash_sentinel ≡ false)
      × (text_eq a vote_sentinel ≡ false)
    → IsPlain a
IsPlain-of_tests a (s, u, x, v) = (
  λ e. cc (s, (text_eq_iff a stake_sentinel).1 e),
  λ e. cc (u, (text_eq_iff a unstake_sentinel).1 e),
  λ e. cc (x, (text_eq_iff a slash_sentinel).1 e),
  λ e. cc (v, (text_eq_iff a vote_sentinel).1 e),
)

pub IsPlain-actors : All (λ v. IsPlain (address v)) actors
unfolding the_program
IsPlain-actors = (
  IsPlain-of_tests _ (refl, refl, refl, refl),
  (
    IsPlain-of_tests _ (refl, refl, refl, refl),
    (
      IsPlain-of_tests _ (refl, refl, refl, refl),
      (
        IsPlain-of_tests _ (refl, refl, refl, refl),
        (
          IsPlain-of_tests _ (refl, refl, refl, refl),
          (IsPlain-of_tests _ (refl, refl, refl, refl), tt),
        ),
      ),
    ),
  ),
)

abbrev HasPlayed : Outcome → Type 0
HasPlayed (played c) = Unit
HasPlayed (failed message) = ⊥
HasPlayed accepted_defect = ⊥
HasPlayed (raised e) = ⊥

abbrev chain_of : (o : Outcome) → HasPlayed o → PosChain
chain_of (played c) h = c
chain_of (failed message) h = absurd h
chain_of accepted_defect h = absurd h
chain_of (raised e) h = absurd h

chain_of-HasPlayed : (o : Outcome) (h : HasPlayed o) → o ≡ played (chain_of o h)
chain_of-HasPlayed (played c) h = refl
chain_of-HasPlayed (failed message) h = absurd h
chain_of-HasPlayed accepted_defect h = absurd h
chain_of-HasPlayed (raised e) h = absurd h

-- What a run computes with.
the_fuzzer : Unit {0}
unfolding fuzz fresh_chain rounds iteration valid_round valid_block invalid_round defect_block fill
    drawn elected_wallet check_invariants all_values genesis_params each_holds balance_of stake_of
    next_validator is_valid_chain add_block add add_within make_room select by_sender ready merge
    sort_by_nonce insert_by_nonce ready_run cost best_head advance
the_fuzzer = tt

-- Alice pays Bob three coins in the first round; in the second Bob overspends.
abbrev pub draws : Draws
draws = record {
  choices = record { sender = alice; op = transfer_op; coins = 3; recipient = bob } ∷ [];
  kind = overspend;
  actor = bob;
}

abbrev fuzzed_twice : PosChain
unfolding the_program the_fuzzer
fuzzed_twice = chain_of (fuzz (draws ∷ draws ∷ [])) tt

fuzzed_plays : fuzz (draws ∷ draws ∷ []) ≡ played fuzzed_twice
unfolding the_program the_fuzzer
fuzzed_plays = chain_of-HasPlayed (fuzz (draws ∷ draws ∷ [])) tt
