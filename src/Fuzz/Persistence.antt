-- ===== src/Fuzz/Persistence.antt =====
-- fuzz.persistence_under_fuzz: a fuzzed chain, written to disk and loaded again.
use mindees_blockchain.Prelude.{none, Text, text, Text_eq, ◌==◌, eqb}
use mindees_blockchain.Json.{Json}
use mindees_blockchain.Primitives.{Primitives}
use mindees_blockchain.Core.Block.{hash}
use mindees_blockchain.Core.Chain.{max_supply_units}
use mindees_blockchain.Consensus.State.{PosChain, total_supply}
use mindees_blockchain.Storage.{load}
use mindees_blockchain.Storage.GenesisFile.{write_genesis}
use mindees_blockchain.Storage.GenesisParams.{genesis_params}
use mindees_blockchain.Storage.Reload.{save, after_genesis}
use mindees_blockchain.Fuzz.{fuzz_args, check_invariants, Outcome, raised, judged, asserts}
use mindees_blockchain.Result.{Result, ok, err, ◌>>=◌}

module _ ⦃p : Primitives⦄ where
  abbrev same_chain : PosChain → Result PosChain → Outcome
  same_chain c (err e) = raised e
  same_chain c (ok d) = judged d (
      asserts (hash d.head == hash c.head) (text "head")
        (asserts (eqb (total_supply d) max_supply_units) (text "supply") (check_invariants d)))

  -- The genesis file is written with sorted keys by `dumps` and read back; its keys come back in
  -- their order in the file.
  unfoldable persistence_under_fuzz : (Json → Text) → (Json → Text) → PosChain → Outcome
  unfolding write_genesis genesis_params save load
  persistence_under_fuzz dumps line_of c = same_chain c (do
    file ← write_genesis dumps fuzz_args none
    args ← genesis_params file
    load args (save line_of (after_genesis c)))
