-- ===== src/Consensus/Supply/Genesis.antt =====
-- The genesis state holds exactly the cap, and so does every chain that grows from it.
use mindees_blockchain.Prelude.{◌+◌, ◌≡◌, [], ◌∷◌, Text_eq, arith, none, some, Option, refl, Text}
use mindees_blockchain.Dict.{Dict, total, total-credit, total-debit, total-set_default}
use mindees_blockchain.Json.{Json}
use mindees_blockchain.Primitives.{Primitives}
use mindees_blockchain.Core.Chain.{Balances, init_chain, max_supply_units}
use mindees_blockchain.Core.Block.{Block}
use mindees_blockchain.Consensus.State.{PosChain, total_supply}
use mindees_blockchain.Consensus.Genesis.{GenesisArgs, place_stakes, init, with_treasury}
use mindees_blockchain.Consensus.Reach.{Reach, Reach-keeps}
use mindees_blockchain.Consensus.Rules.{submit}
use mindees_blockchain.Consensus.Supply.Blocks.{submit_supply}
use mindees_blockchain.Result.{ok, Returns}

place_stakes-total :
    (d : Dict Text Json) (balances stakes : Balances)
    → Returns
        (λ r. total r.0 + total r.1 ≡ total balances + total stakes)
        (place_stakes d (balances, stakes))
unfolding place_stakes
place_stakes-total [] balances stakes = refl
place_stakes-total ((a, v) ∷ d) balances stakes =
    grind (arith, total-credit, total-debit, place_stakes-total d)

total-with_treasury : (t : Option Text) (d : Balances) → total (with_treasury t d) ≡ total d
total-with_treasury none d = refl
total-with_treasury (some t) d = total-set_default t d

module _ ⦃p : Primitives⦄ where
  init_chain-total :
      (d : Dict Text Json) (timestamp : Json)
      → Returns (λ c. total c.balances ≡ max_supply_units) (init_chain d timestamp tt)
  unfolding init_chain
  init_chain-total d timestamp = ground arith

  init_supply : (g : GenesisArgs) → Returns (λ c. total_supply c ≡ max_supply_units) (init g)
  unfolding init total_supply total
  init_supply g =
      grind (arith, total-with_treasury, place_stakes-total g.initial_stakes, init_chain-total)

  keeps_supply :
      (d e : PosChain) (block : Block)
      → submit d block ≡ ok e
      → total_supply d ≡ max_supply_units
      → total_supply e ≡ max_supply_units
  keeps_supply d e block s h = ground (arith, submit_supply d block)

  -- Whatever blocks a chain has accepted since a genesis that was accepted, its liquid, staked and
  -- unbonding units sum to the cap of 1,000,000 coins.
  pub Reach-supply :
      (g : GenesisArgs) {c d : PosChain}
      → init g ≡ ok c
      → Reach c d
      → total_supply d ≡ max_supply_units
  Reach-supply g {c} start r =
      Reach-keeps (λ d. total_supply d ≡ max_supply_units) keeps_supply r
        (ground (arith, init_supply g))
