-- ===== src/Tests/Fuzz.antt =====
-- The theorems on the fuzzer, at its first chain over the toy primitives.
use mindees_blockchain.Prelude.{◌≢◌, [], ◌∷◌, refl}
use mindees_blockchain.Json.{num}
use mindees_blockchain.Consensus.Reach.{here}
use mindees_blockchain.Consensus.Instant.{Reach-IsInstant}
use mindees_blockchain.Fuzz.{fuzz, fuzz_args, invalid_round, accepted_defect, dup}
use mindees_blockchain.Fuzz.Invariants.{KeepsInvariants, fuzz-KeepsInvariants}
use mindees_blockchain.Fuzz.Defects.{invalid_round-ne-accepted_defect}
use mindees_blockchain.Tests.Toy.{bob, toy}
use mindees_blockchain.Tests.Blocks.Fuzzed.{
  draws, fuzzed, fuzzed_start, fuzzed-AreStaffed, pariah_unstaked, IsPlain-actors,
}

fuzz-KeepsInvariants_example : KeepsInvariants (fuzz (draws ∷ draws ∷ []))
fuzz-KeepsInvariants_example = fuzz-KeepsInvariants (draws ∷ draws ∷ [])

invalid_round-ne-accepted_defect_example : invalid_round fuzzed dup bob (num 7) ≢ accepted_defect
invalid_round-ne-accepted_defect_example =
    invalid_round-ne-accepted_defect fuzzed dup bob (num 7)
      (Reach-IsInstant fuzz_args fuzzed_start refl here) fuzzed-AreStaffed pariah_unstaked
      IsPlain-actors
