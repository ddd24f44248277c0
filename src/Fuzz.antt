-- ===== src/Fuzz.antt =====
-- fuzz.py: random rounds on a chain, and the invariants that are asserted after each. What the
-- generator draws is an argument; the time stamps, the printing and the benchmark are left out.
pub mod Invariants
pub mod Refusals
pub mod Defects
pub mod Persistence
use mindees_blockchain.Prelude.{
  ℕ, ◌+◌, ◌-◌, ◌*◌, ◌/◌, ◌%◌, ◌≡◌, Bool, true, false, Option, none, some, List, [], ◌∷◌, Text, text,
  Text_eq, ◌==◌, ltb, leb, eqb, not, if◌then◌else◌, length, map,
}
use mindees_blockchain.Dict.{Dict, get_or, put, total}
use mindees_blockchain.Json.{Json, num, str}
use mindees_blockchain.Primitives.{Primitives}
use mindees_blockchain.Core.Signature.{Wallet, address}
use mindees_blockchain.Core.Transaction.{Transaction, unsigned, sign}
use mindees_blockchain.Core.Block.{hash}
use mindees_blockchain.Core.Chain.{Balances, coin, max_supply_units, is_valid_chain, balance_of}
use mindees_blockchain.Consensus.State.{PosChain, total_supply}
use mindees_blockchain.Consensus.Genesis.{GenesisArgs, init}
use mindees_blockchain.Consensus.Queries.{stake_of}
use mindees_blockchain.Consensus.Rules.{next_validator}
use mindees_blockchain.Consensus.Build.{add_block, stake_tx, unstake_tx}
use mindees_blockchain.Mempool.{Pool, select, max_txs_per_block}
use mindees_blockchain.Mempool
use mindees_blockchain.Result.{Error, Result, ok, err, invalid, key_error, or_raise, ◌>>=◌}

abbrev wallet : ℕ → Wallet
wallet n = record { secret = n }

-- W[0], and the other actors
abbrev first_actor : Wallet
first_actor = wallet 1

abbrev pub actors : List Wallet
actors = first_actor ∷ wallet 2 ∷ wallet 3 ∷ wallet 4 ∷ wallet 5 ∷ wallet 6 ∷ []

-- Never staked.
abbrev pub pariah : Wallet
pariah = wallet 100

abbrev genesis_stake : ℕ
genesis_stake = 1000 * coin

abbrev liquid : ℕ
liquid = 2000 * coin

abbrev genesis_ts : ℕ
genesis_ts = 1_700_000_000

module _ ⦃p : Primitives⦄ where
  -- `{w.address: n for w in ws}`
  unfoldable pub each_holds : ℕ → List Wallet → Dict Text Json → Dict Text Json
  each_holds n [] d = d
  each_holds n (w ∷ ws) d = each_holds n ws (put (address w) (num n) d)

  -- The first wallet takes what is left of the cap.
  unfoldable pub genesis_params : Dict Text Json × Dict Text Json
  unfolding each_holds
  genesis_params = (
    put (address first_actor) (num (max_supply_units - liquid * (length actors - 1)))
        (each_holds liquid actors []),
    each_holds genesis_stake (first_actor ∷ wallet 2 ∷ wallet 3 ∷ []) [],
  )

  -- With the defaults of the constructor.
  abbrev pub fuzz_args : GenesisArgs
  fuzz_args = record {
    allocations = genesis_params.0;
    initial_stakes = genesis_params.1;
    timestamp = num genesis_ts;
    vesting = [];
    unbonding_blocks = 0;
    treasury_address = none;
    epoch = 32;
  }

  unfoldable pub fresh_chain : Result PosChain
  fresh_chain = init fuzz_args

-- What an assertion does.
pub data Verdict : Type 0 where
  holds : Verdict
  broken : Text → Verdict

abbrev asserts : Bool → Text → Verdict → Verdict
asserts true message rest = rest
asserts false message rest = broken message

-- `all(test(v) for v in d.values())`
unfoldable pub all_values : (ℕ → Bool) → Balances → Bool
all_values test [] = true
all_values test ((a, n) ∷ d) = if test n then all_values test d else false

module _ ⦃p : Primitives⦄ where
  -- No balance is negative by its type.
  unfoldable pub check_invariants : PosChain → Verdict
  unfolding all_values
  check_invariants c =
      asserts (eqb (total_supply c) max_supply_units) (text "I1: supply drifted!") (
        asserts (all_values (leb 0) c.balances) (text "I2: negative balance") (
          asserts (all_values (ltb 0) c.self.state.stakes) (text "I3: non-positive stake recorded")
            (asserts (eqb (total c.balances + total c.self.state.stakes) max_supply_units)
              (text "I4") (asserts (is_valid_chain c) (text "I5: chain no longer valid") holds))))

-- How a round ends: with a chain, with an assertion that failed, with the assertion that a defect was
-- accepted, or with an exception that is not caught.
pub data Outcome : Type 0 where
  played : PosChain → Outcome
  failed : Text → Outcome
  accepted_defect : Outcome
  raised : Error → Outcome

abbrev judged : PosChain → Verdict → Outcome
judged c holds = played c
judged c (broken message) = failed message

pub data Op : Type 0 where
  transfer_op stake_op unstake_op : Op

-- The draws of a valid round for one sender.
pub record Choice : Type 0 where
  pub sender : Wallet
  pub op : Op
  pub coins : ℕ
  pub recipient : Wallet

pub data Defect : Type 0 where
  proposer_fault overspend nonce_fault tamper dup : Defect

-- A later entry of a dict replaces an earlier one.
abbrev later_or : Option Wallet → Bool → Wallet → Option Wallet
later_or (some v) same w = some v
later_or none true w = some w
later_or none false w = none

-- BY_ADDR
abbrev by_addr : ⦃p : Primitives⦄ → Text → List Wallet → Option Wallet
by_addr a [] = none
by_addr a (w ∷ ws) = later_or (by_addr a ws) (a == address w) w

module _ ⦃p : Primitives⦄ where
  abbrev pay : Wallet → Wallet → ℕ → ℕ → Result Transaction
  pay s r amount nonce =
      sign s (unsigned (address s) (address r) (num amount) (num 0) (num nonce) (str []))

  -- The transaction that is drawn, or `none` where the loop continues.
  unfoldable pub drawn : PosChain → Choice → Result (Option Transaction)
  drawn c choice =
      let s = choice.sender in
      let nonce = get_or (address s) 0 c.nonces in
      let bal_coins = balance_of (address s) c / coin in
      let amount = choice.coins * coin in
      elim choice.op [
        | transfer_op ↦
            if ltb bal_coins 1
            then ok none
            else (pay s choice.recipient amount nonce >>= λ tx. ok (some tx))
        | stake_op ↦
            if ltb bal_coins 1 then ok none else (stake_tx s amount 0 nonce >>= λ tx. ok (some tx))
        | unstake_op ↦ unstake_tx s amount 0 nonce >>= λ tx. ok (some tx)
      ]

  abbrev offered : PosChain → Pool → Option Transaction → Result Pool
  offered c pool none = ok pool
  offered c pool (some tx) = Mempool.add tx c pool >>= λ r. ok r.1

  -- `except ValidationError: continue`
  abbrev or_skip : Pool → Result Pool → Result Pool
  or_skip pool (ok room) = ok room
  or_skip pool (err (invalid r)) = ok pool
  or_skip pool (err e) = err e

  unfoldable pub fill : PosChain → List Choice → Pool → Result Pool
  unfolding drawn
  fill c [] pool = ok pool
  fill c (choice ∷ choices) pool = do
    room ← or_skip pool (drawn c choice >>= offered c pool)
    fill c choices room

  unfoldable pub elected_wallet : PosChain → Result Wallet
  elected_wallet c = do a ← next_validator c; or_raise (by_addr a actors) key_error

  unfoldable pub valid_block : PosChain → List Choice → Json → Result PosChain
  unfolding fill elected_wallet
  valid_block c choices ts = do
    pool ← fill c choices []
    proposer ← elected_wallet c
    add_block c (select c max_txs_per_block pool) proposer ts (num 0)

  abbrev checked : Result PosChain → Outcome
  checked (ok d) = judged d (check_invariants d)
  checked (err e) = raised e

  unfoldable pub valid_round : PosChain → List Choice → Json → Outcome
  unfolding valid_block check_invariants
  valid_round c choices ts = checked (valid_block c choices ts)

  -- The block with the defect.
  unfoldable pub defect_block : PosChain → Defect → Wallet → Wallet → Json → Result PosChain
  defect_block c proposer_fault s proposer ts = add_block c [] pariah ts (num 0)
  defect_block c overspend s proposer ts = do
    tx ← pay s proposer (balance_of (address s) c + 1000 * coin) (get_or (address s) 0 c.nonces)
    add_block c (tx ∷ []) proposer ts (num 0)
  defect_block c nonce_fault s proposer ts = do
    tx ← pay s proposer (1 * coin) (get_or (address s) 0 c.nonces + 5)
    add_block c (tx ∷ []) proposer ts (num 0)
  defect_block c tamper s proposer ts = do
    tx ← pay s proposer (1 * coin) (get_or (address s) 0 c.nonces)
    add_block c (record tx { amount = num (balance_of (address s) c + 999 * coin) } ∷ []) proposer
        ts (num 0)
  defect_block c dup s proposer ts = do
    tx ← pay s proposer (1 * coin) (get_or (address s) 0 c.nonces)
    add_block c (tx ∷ tx ∷ []) proposer ts (num 0)

  -- A chain is a value, so one that refuses a block is the chain before.
  abbrev refused : PosChain → Result PosChain → Outcome
  refused c (ok d) = accepted_defect
  refused c (err (invalid r)) = judged c (check_invariants c)
  refused c (err e) = raised e

  abbrev with_proposer : PosChain → Defect → Wallet → Json → Result Wallet → Outcome
  with_proposer c kind s ts (ok proposer) = refused c (defect_block c kind s proposer ts)
  with_proposer c kind s ts (err e) = raised e

  unfoldable pub invalid_round : PosChain → Defect → Wallet → Json → Outcome
  unfolding defect_block elected_wallet check_invariants
  invalid_round c kind s ts = with_proposer c kind s ts (elected_wallet c)

-- The draws for one iteration, whichever iteration it plays.
pub record Draws : Type 0 where
  pub choices : List Choice
  pub kind : Defect
  pub actor : Wallet

abbrev on_played : Outcome → (PosChain → Outcome) → Outcome
on_played (played c) next = next c
on_played (failed message) next = failed message
on_played accepted_defect next = accepted_defect
on_played (raised e) next = raised e

module _ ⦃p : Primitives⦄ where
  -- Rounds take turns: a valid one and one with a defect.
  unfoldable pub iteration : ℕ → Draws → PosChain → Outcome
  unfolding valid_round invalid_round
  iteration i draws c =
      let ts = num (genesis_ts + i + 1) in
      if eqb (i % 2) 0
      then valid_round c draws.choices ts
      else invalid_round c draws.kind draws.actor ts

  unfoldable pub rounds : ℕ → List Draws → PosChain → Outcome
  unfolding iteration
  rounds i [] c = played c
  rounds i (draws ∷ rest) c = on_played (iteration i draws c) (λ d. rounds (i + 1) rest d)

  -- The body of the loop over the seeds.
  unfoldable pub fuzz : List Draws → Outcome
  unfolding fresh_chain rounds
  fuzz draws = on_played (checked fresh_chain) (λ c. rounds 0 draws c)
