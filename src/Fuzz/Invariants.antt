-- ===== src/Fuzz/Invariants.antt =====
-- fuzz.check_invariants along the rounds of fuzz.fuzz.
use mindees_blockchain.Prelude.{
  ℕ, ◌+◌, ◌<◌, ◌≡◌, refl, true, List, [], ◌∷◌, Text, Text_eq, All, arith, ltb, leb, eqb, ◌%◌,
  Bool-cases, inl, inr,
}
use mindees_blockchain.Json.{Json, num}
use mindees_blockchain.Primitives.{Primitives}
use mindees_blockchain.Core.Signature.{Wallet}
use mindees_blockchain.Core.Chain.{Balances, max_supply_units, is_valid_chain}
use mindees_blockchain.Consensus.State.{PosChain, total_supply, unbonding_total}
use mindees_blockchain.Consensus.Genesis.{GenesisArgs, init}
use mindees_blockchain.Consensus.Rules.{submit}
use mindees_blockchain.Consensus.Build.{add_block}
use mindees_blockchain.Consensus.Reach.{Reach, here, next}
use mindees_blockchain.Consensus.Validators.{ValidStakes}
use mindees_blockchain.Consensus.Liveness.{Reach-ValidStakes}
use mindees_blockchain.Consensus.Linked.{Reach-IsLinked}
use mindees_blockchain.Consensus.Supply.Genesis.{Reach-supply}
use mindees_blockchain.Consensus.Instant.{IsInstant, Reach-IsInstant}
use mindees_blockchain.Fuzz.{
  holds, all_values, check_invariants, Outcome, played, failed, accepted_defect, raised, Choice,
  Defect, Draws, valid_block, valid_round, defect_block, invalid_round, elected_wallet, iteration,
  rounds, fuzz, fuzz_args, fresh_chain, judged, checked, refused, with_proposer, on_played, fill,
  genesis_ts,
}
use mindees_blockchain.Result.{
  Result, ok, err, invalid, key_error, value_error, type_error, attribute_error, system_exit,
  ill_typed, >>=-eq-ok,
}
use mindees_blockchain.Mempool.{select, max_txs_per_block}

all_values-any : (d : Balances) → all_values (leb 0) d ≡ true
unfolding all_values
all_values-any [] = refl
all_values-any ((a, n) ∷ d) = ground (arith, all_values-any d)

all_values-positive :
    (d : Balances) → All (λ (e : Text × ℕ). 0 < e.1) d → all_values (ltb 0) d ≡ true
unfolding all_values
all_values-positive [] h = refl
all_values-positive ((a, n) ∷ d) h = ground (arith, all_values-positive d h.1)

module _ ⦃p : Primitives⦄ where
  check_invariants_lem :
      (c : PosChain)
      → total_supply c ≡ max_supply_units
      → ValidStakes c.self.state.stakes
      → is_valid_chain c ≡ true
      → IsInstant c
      → check_invariants c ≡ holds
  unfolding check_invariants ValidStakes total_supply unbonding_total
  check_invariants_lem c supply stakes linked instant = ground (
    arith,
    all_values-any c.balances,
    all_values-positive c.self.state.stakes stakes.1,
    instant.queues,
  )

  pub Reach-invariants :
      (g : GenesisArgs) {c d : PosChain}
      → init g ≡ ok c
      → g.unbonding_blocks ≡ 0
      → Reach c d
      → check_invariants d ≡ holds
  Reach-invariants g {c} {d} start instant r =
      check_invariants_lem d (Reach-supply g start r) (Reach-ValidStakes g start r)
        (Reach-IsLinked g start r).0 (Reach-IsInstant g start instant r)

  add_block-Reach :
      (c d e : PosChain) (txs : List _) (w : Wallet) (ts nonce : Json)
      → Reach c d
      → add_block d txs w ts nonce ≡ ok e
      → Reach c e
  unfolding add_block
  add_block-Reach c d e txs w ts nonce r h =
      let (block, made, taken) = >>=-eq-ok _ (submit d) {b = e} h in next block r taken

-- No assertion on the chain has failed, and a chain that was played grew from the first and keeps
-- the invariants.
abbrev pub Lasts : ⦃p : Primitives⦄ → PosChain → Outcome → Type 0
Lasts c (played d) = Reach c d × (check_invariants d ≡ holds)
Lasts c (failed message) = ⊥
Lasts c accepted_defect = Unit
Lasts c (raised e) = Unit

module _ ⦃p : Primitives⦄ (g : GenesisArgs) {c : PosChain} (start : init g ≡ ok c)
    (instant : g.unbonding_blocks ≡ 0) where
  judged-Lasts : (d : PosChain) → Reach c d → Lasts c (judged d (check_invariants d))
  judged-Lasts d r = let i = Reach-invariants g start instant r in rw i (r, i)

  checked-Lasts :
      (m : Result PosChain) → ((d : PosChain) → m ≡ ok d → Reach c d) → Lasts c (checked m)
  checked-Lasts (ok d) h = judged-Lasts d (h d refl)
  checked-Lasts (err e) h = tt

  valid_round-Lasts :
      (d : PosChain) (choices : List Choice) (ts : Json)
      → Reach c d
      → Lasts c (valid_round d choices ts)
  unfolding valid_round valid_block
  valid_round-Lasts d choices ts r = checked-Lasts (valid_block d choices ts) λ e h.
      let (pool, filled, h1) = >>=-eq-ok (fill d choices []) _ {b = e} h in
      let (w, elected, h2) = >>=-eq-ok (elected_wallet d) _ {b = e} h1 in
      add_block-Reach c d e (select d max_txs_per_block pool) w ts (num 0) r h2

  refused-Lasts : (d : PosChain) (m : Result PosChain) → Reach c d → Lasts c (refused d m)
  refused-Lasts d (ok e) r = tt
  refused-Lasts d (err (invalid reason)) r = judged-Lasts d r
  refused-Lasts d (err key_error) r = tt
  refused-Lasts d (err value_error) r = tt
  refused-Lasts d (err type_error) r = tt
  refused-Lasts d (err attribute_error) r = tt
  refused-Lasts d (err system_exit) r = tt
  refused-Lasts d (err ill_typed) r = tt

  with_proposer-Lasts :
      (d : PosChain) (kind : Defect) (s : Wallet) (ts : Json) (m : Result Wallet)
      → Reach c d
      → Lasts c (with_proposer d kind s ts m)
  with_proposer-Lasts d kind s ts (ok w) r = refused-Lasts d (defect_block d kind s w ts) r
  with_proposer-Lasts d kind s ts (err e) r = tt

  iteration-Lasts :
      (i : ℕ) (draws : Draws) (d : PosChain) → Reach c d → Lasts c (iteration i draws d)
  unfolding iteration invalid_round
  iteration-Lasts i draws d r = elim (Bool-cases (eqb (i % 2) 0)) [
    | inl even ↦ rw even (valid_round-Lasts d draws.choices (num (genesis_ts + i + 1)) r)
    | inr odd ↦ rw odd (
        with_proposer-Lasts d draws.kind draws.actor (num (genesis_ts + i + 1)) (elected_wallet d)
          r)
  ]

  on_played-Lasts :
      (o : Outcome) (rest : PosChain → Outcome)
      → Lasts c o
      → ((d : PosChain) → Reach c d → Lasts c (rest d))
      → Lasts c (on_played o rest)
  on_played-Lasts (played d) rest h k = k d h.0
  on_played-Lasts (failed message) rest h k = absurd h
  on_played-Lasts accepted_defect rest h k = tt
  on_played-Lasts (raised e) rest h k = tt

  pub rounds-Lasts :
      (i : ℕ) (draws : List Draws) (d : PosChain) → Reach c d → Lasts c (rounds i draws d)
  unfolding rounds
  rounds-Lasts i [] d r = (r, Reach-invariants g start instant r)
  rounds-Lasts i (x ∷ draws) d r =
      on_played-Lasts (iteration i x d) (λ e. rounds (i + 1) draws e) (iteration-Lasts i x d r)
        (λ e s. rounds-Lasts (i + 1) draws e s)

-- The same without a first chain.
abbrev pub KeepsInvariants : ⦃p : Primitives⦄ → Outcome → Type 0
KeepsInvariants (played d) = check_invariants d ≡ holds
KeepsInvariants (failed message) = ⊥
KeepsInvariants accepted_defect = Unit
KeepsInvariants (raised e) = Unit

module _ ⦃p : Primitives⦄ where
  Lasts-KeepsInvariants : (c : PosChain) (o : Outcome) → Lasts c o → KeepsInvariants o
  Lasts-KeepsInvariants c (played d) h = h.1
  Lasts-KeepsInvariants c (failed message) h = h
  Lasts-KeepsInvariants c accepted_defect h = tt
  Lasts-KeepsInvariants c (raised e) h = tt

  from_genesis :
      (draws : List Draws) (m : Result PosChain)
      → init fuzz_args ≡ m
      → KeepsInvariants (on_played (checked m) (λ c. rounds 0 draws c))
  from_genesis draws (err e) start = tt
  from_genesis draws (ok c) start =
      let fresh = Reach-invariants fuzz_args start refl here in
      rw fresh (
        Lasts-KeepsInvariants c (rounds 0 draws c)
          (rounds-Lasts fuzz_args start refl 0 draws c here))

  -- Whatever is drawn, no round of the fuzzer fails an assertion on the chain: a run either ends with
  -- a chain on which all of the asserted invariants hold, or stops at an exception or at a defect that
  -- was accepted.
  pub fuzz-KeepsInvariants : (draws : List Draws) → KeepsInvariants (fuzz draws)
  unfolding fuzz fresh_chain
  fuzz-KeepsInvariants draws = from_genesis draws (init fuzz_args) refl
