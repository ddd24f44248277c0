-- ===== src/Consensus/Runs.antt =====
-- From the genesis allocations on, what addresses hold is what the settled blocks make of them.
use mindees_blockchain.Prelude.{
  ◌+◌, ◌-◌, text_eq_iff, ◌<◌, length, ◌≡◌, refl, none, some, Option, List, [], ◌∷◌, Text, Text_eq,
  arith, ap, ◌∙◌,
}
use mathlib.Core.Path.{fun_ext}
use mindees_blockchain.Dict.{Dict, put, credit, get_or, get_or-set_default}
use mindees_blockchain.Json.{Json, units}
use mindees_blockchain.Primitives.{Primitives, Bytes}
use mindees_blockchain.Core.Encoding.{sha256}
use mindees_blockchain.Core.Block.{Block}
use mindees_blockchain.Core.Chain.{Balances, amounts, init_chain}
use mindees_blockchain.Consensus.State.{PosChain}
use mindees_blockchain.Consensus.Genesis.{GenesisArgs, place_stakes, init, with_treasury}
use mindees_blockchain.Consensus.Rules.{submit, next_validator}
use mindees_blockchain.Consensus.Accounts.{settle_blocks}
use mindees_blockchain.Consensus.Holdings.{get_or-credit, get_or-lower}
use mindees_blockchain.Consensus.Validators.{ValidStakes, AreStaffed, credit-AreStaffed}
use mindees_blockchain.Consensus.Liveness.{
  NoSlash, AreBytes, init-ValidStakes, submit-AreStaffed, place_stakes-AreStaffed, proposer_exists,
  no_stakes,
}
use mindees_blockchain.Consensus.Keyed.{HasOneQueue}
use mindees_blockchain.Consensus.Refinement.{held, settle_all-cong, submit_refines_accounts}
use mindees_blockchain.Result.{ok, Returns}

place_stakes-get_or :
    (a : Text) (d : Dict Text Json) (balances stakes : Balances)
    → Returns
        (λ r. get_or a 0 r.0 + get_or a 0 r.1 ≡ get_or a 0 balances + get_or a 0 stakes)
        (place_stakes d (balances, stakes))
unfolding place_stakes
place_stakes-get_or a [] balances stakes = refl
place_stakes-get_or a ((k, v) ∷ d) balances stakes = ground (
  arith,
  text_eq_iff a k,
  get_or-credit a k (units v) stakes,
  get_or-lower a k (units v) balances,
  place_stakes-get_or a d (put k (get_or k 0 balances - units v) balances)
      (credit k (units v) stakes),
)

get_or-with_treasury :
    (a : Text) (t : Option Text) (d : Balances) → get_or a 0 (with_treasury t d) ≡ get_or a 0 d
get_or-with_treasury a none d = refl
get_or-with_treasury a (some t) d = get_or-set_default a t 0 d

module _ ⦃p : Primitives⦄ where
  init_chain-balances :
      (d : Dict Text Json) (timestamp : Json)
      → Returns (λ c. c.balances ≡ amounts d) (init_chain d timestamp tt)
  unfolding init_chain
  init_chain-balances d timestamp = ground arith

  init-held :
      (g : GenesisArgs) (a : Text)
      → Returns (λ c. held c a ≡ get_or a 0 (amounts g.allocations)) (init g)
  unfolding init held get_or
  init-held g a = grind (
    arith,
    init_chain-balances g.allocations g.timestamp,
    get_or-with_treasury a,
    place_stakes-get_or a g.initial_stakes,
  )

  init-HasOneQueue : (g : GenesisArgs) → Returns (λ c. HasOneQueue c.self.state.unbonding) (init g)
  unfolding init HasOneQueue
  init-HasOneQueue g = ground arith

  -- Blocks without a slash, accepted one after another; the list has the newest first.
  pub data PlainRun (c : PosChain) : List Block → PosChain → Type 0 where
    started : PlainRun c [] c
    accepted :
        {bs : List Block} {d e : PosChain} (block : Block)
        → PlainRun c bs d
        → NoSlash block.transactions
        → submit d block ≡ ok e
        → PlainRun c (block ∷ bs) e

  run_settles :
      {c d : PosChain} {bs : List Block}
      → ValidStakes c.self.state.stakes
      → HasOneQueue c.self.state.unbonding
      → PlainRun c bs d
      → ((a : Text) → held d a ≡ settle_blocks bs (held c) a)
        × ValidStakes d.self.state.stakes
        × HasOneQueue d.self.state.unbonding
  unfolding settle_blocks
  run_settles stakes queues started = (λ a. refl, stakes, queues)
  run_settles stakes queues (accepted {bs} {d} {e} block run plain taken) =
      let (before, stakes', queues') = run_settles stakes queues run in
      let (step, stakes'', queues'') =
        submit_refines_accounts d block stakes' queues' plain taken in
      (
        λ a. step a ∙ settle_all-cong block.validator block.transactions before a,
        stakes'',
        queues'',
      )

  -- After a genesis that is accepted and any number of accepted blocks without a slash, each address
  -- holds, liquid, staked and unbonding together, what the payments and fees of the blocks, one after
  -- another, make of the genesis allocations. Stakes, exits, votes and maturing queues change no
  -- holding.
  pub run_refines_accounts :
      (g : GenesisArgs) {c d : PosChain} {bs : List Block}
      → init g ≡ ok c
      → PlainRun c bs d
      → (a : Text) → held d a ≡ settle_blocks bs (λ b. get_or b 0 (amounts g.allocations)) a
  run_refines_accounts g {c} {d} {bs} start run a =
      let stakes : ValidStakes c.self.state.stakes = rw start at (init-ValidStakes g) in
      let queues : HasOneQueue c.self.state.unbonding = rw start at (init-HasOneQueue g) in
      let allocated : (b : Text) → held c b ≡ get_or b 0 (amounts g.allocations) =
        λ b. rw start at (init-held g b) in
      (run_settles stakes queues run).0 a ∙ ap (λ acc. settle_blocks bs acc a) (fun_ext allocated)

place_stakes-staffs :
    (d : Dict Text Json) (balances : Balances)
    → 0 < length d
    → Returns (λ r. AreStaffed r.1) (place_stakes d (balances, []))
unfolding place_stakes
place_stakes-staffs [] balances h = absurd (omega arith)
place_stakes-staffs ((a, v) ∷ d) balances h =
    grind (arith, no_stakes, credit-AreStaffed a (units v) [], place_stakes-AreStaffed d)

module _ ⦃p : Primitives⦄ where
  init-AreStaffed :
      (g : GenesisArgs)
      → 0 < length g.initial_stakes
      → Returns (λ c. AreStaffed c.self.state.stakes) (init g)
  unfolding init
  init-AreStaffed g h = grind (arith, h, place_stakes-staffs)

  run-AreStaffed :
      {c d : PosChain} {bs : List Block}
      → AreStaffed c.self.state.stakes
      → PlainRun c bs d
      → AreStaffed d.self.state.stakes
  run-AreStaffed h started = h
  run-AreStaffed h (accepted {bs} {d} block run plain taken) =
      submit-AreStaffed d block taken plain (run-AreStaffed h run)

  -- If the digests of SHA-256 consist of bytes, then after a genesis that is accepted and has an
  -- initial stake, and any number of accepted blocks without a slash, the proposer of the next block
  -- exists and has a stake.
  pub run_has_proposer :
      (g : GenesisArgs) {c d : PosChain} {bs : List Block}
      → ((m : Bytes) → AreBytes (sha256 m))
      → init g ≡ ok c
      → 0 < length g.initial_stakes
      → PlainRun c bs d
      → (a : Text) × (next_validator d ≡ ok a) × (0 < get_or a 0 d.self.state.stakes)
  run_has_proposer g {c} {d} bytes start some_stake run =
      let staffed : AreStaffed c.self.state.stakes = rw start at (init-AreStaffed g some_stake) in
      proposer_exists d bytes (run-AreStaffed staffed run)
