-- ===== src/Consensus/Queries.antt =====
-- ProofOfStakeChain: the read-only queries.
use mindees_blockchain.Prelude.{
  ℕ, ◌+◌, ◌-◌, Bool, none, some, [], Text, Text_eq, eqb, if◌then◌else◌,
}
use Prim.Native.Nat.{min}
use mindees_blockchain.Dict.{get, get_or, member}
use mindees_blockchain.Consensus.State.{PosChain, bonded_in}
use mindees_blockchain.Consensus.Stake.{locked_at}

unfoldable pub stake_of : Text → PosChain → ℕ
stake_of a c = get_or a 0 c.self.state.stakes

unfoldable pub unbonding_of : Text → PosChain → ℕ
unfolding bonded_in
unbonding_of a c = bonded_in (get_or a [] c.self.state.unbonding)

abbrev pub finalized_checkpoint : PosChain → Text × ℕ
finalized_checkpoint c = c.self.state.finalized

unfoldable pub is_justified : Text → PosChain → Bool
is_justified h c = member h c.self.state.justified

-- locked_of(address, height)
unfoldable pub locked_of : Text → ℕ → PosChain → ℕ
unfolding locked_at
locked_of a height c = elim (get a c.self.config.vesting) [ none ↦ 0 | some g ↦ locked_at g height ]

-- The subtraction stops at 0, as `max(0, ...)` does.
unfoldable pub spendable_of : Text → PosChain → ℕ
unfolding locked_of stake_of unbonding_of
spendable_of a c =
    let bal = get_or a 0 c.balances in
    let lock = locked_of a c.head.index c in
    if eqb lock 0 then bal else min bal (bal + stake_of a c + unbonding_of a c - lock)
