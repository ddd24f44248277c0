-- ===== src/Tokenomics.antt =====
-- tokenomics.py: the genesis split between the market and the founder.
use mindees_blockchain.Prelude.{
  ℕ, ◌*◌, Bool, List, [], ◌∷◌, Text, Text_eq, ◌==◌, ltb, eqb, not, if◌then◌else◌,
}
use mindees_blockchain.Dict.{Dict, put, total}
use mindees_blockchain.Core.Chain.{coin, max_supply_units}
use mindees_blockchain.Result.{Result, ok, err, value_error, ◌>>◌}

abbrev pub market_supply : ℕ
market_supply = 750_000

abbrev pub founder_supply : ℕ
founder_supply = 250_000

-- `raise ValueError(...)`
abbrev pub reject_if : Bool → Result (Unit {0})
reject_if b = if b then err value_error else ok tt

-- (allocations, initial_stakes, vesting); a grant is the list [total, start, cliff, duration]
unfoldable pub build_genesis :
    Text → Text → ℕ → ℕ → ℕ → Result (Dict Text ℕ × Dict Text ℕ × Dict Text (List ℕ))
build_genesis market_addr founder_addr founder_stake_coins vest_cliff vest_duration = do
  reject_if (market_addr == founder_addr)
  reject_if (ltb founder_supply founder_stake_coins)
  let allocations =
      put founder_addr (founder_supply * coin) ((market_addr, market_supply * coin) ∷ [])
  reject_if (not (eqb (total allocations) max_supply_units))
  let initial_stakes =
      if eqb founder_stake_coins 0 then [] else (founder_addr, founder_stake_coins * coin) ∷ []
  let vesting =
      if ltb 0 vest_duration
      then (founder_addr, founder_supply * coin ∷ 0 ∷ vest_cliff ∷ vest_duration ∷ []) ∷ []
      else []
  ok (allocations, initial_stakes, vesting)
