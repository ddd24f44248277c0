-- ===== src/Consensus/State.antt =====
-- consensus.ProofOfStakeChain: the attributes that the layer adds to the ledger.
use mindees_blockchain.Prelude.{
  ℕ, ◌+◌, ◌-◌, ◌≡◌, if◌then◌else◌, ◌↔◌, Bool, true, false, ◌&&◌, Option, List, [], ◌∷◌, Text, Eq,
  Text_eq, ℕ_eq, text_eq, text_eq_iff, eqb, arith,
}
use mindees_blockchain.Dict.{Dict, total, contains, put, get_or}
use mindees_blockchain.Result.{Result, ok, err, key_error}
use mindees_blockchain.Core.Chain.{Balances, Chain, Work}

-- (amount, bond_height, release_height)
pub record Bond : Type 0 where
  pub amount : ℕ
  pub bonded_at : ℕ
  pub released_at : ℕ

-- (total, start, cliff, duration)
pub record Grant : Type 0 where
  pub amount : ℕ
  pub start : ℕ
  pub cliff : ℕ
  pub duration : ℕ

-- What a slash is remembered by: (offender, height), or the id of two votes as a hex string.
pub data Offense : Type 0 where
  block_fault : Text → ℕ → Offense
  vote_fault : Text → Offense

abbrev pub offense_beq : Offense → Offense → Bool
offense_beq (block_fault a m) (block_fault b n) = text_eq a b && eqb m n
offense_beq (block_fault a m) (vote_fault j) = false
offense_beq (vote_fault i) (block_fault b n) = false
offense_beq (vote_fault i) (vote_fault j) = text_eq i j

pub offense_beq_iff : (a b : Offense) → (offense_beq a b ≡ true) ↔ (a ≡ b)
offense_beq_iff (block_fault a m) (block_fault b n) = ground (arith, text_eq_iff a b)
offense_beq_iff (block_fault a m) (vote_fault j) = ground arith
offense_beq_iff (vote_fault i) (block_fault b n) = ground arith
offense_beq_iff (vote_fault i) (vote_fault j) = ground (arith, text_eq_iff i j)

instance abbrev pub Offense_eq : Eq Offense
Offense_eq = record { beq = offense_beq; beq_iff = offense_beq_iff }

-- The entries of the `aux` dict. `justified_parent` is set by `_apply_block_pre` for one block and
-- never committed: a committed state has it empty.
pub record Aux : Type 0 where
  pub stakes : Balances
  pub unbonding : Dict Text (List Bond)
  pub slashed : List Offense
  pub slashed_addrs : List Text
  pub ffg_stake : Dict Text Balances
  pub ffg_height : Dict Text ℕ
  pub ffg_votes : Dict (Text × Text) (List Text)
  pub ffg_seen_target : Dict (Text × ℕ) (Text × Text)
  pub justified : List Text
  pub finalized : Text × ℕ
  pub justified_parent : List Text

-- The genesis configuration, fixed for the life of the chain.
pub record Config : Type 0 where
  pub vesting : Dict Text Grant
  pub unbonding_blocks : ℕ
  pub treasury_address : Option Text
  pub epoch : ℕ

pub record Staking : Type 0 where
  pub config : Config
  pub state : Aux

abbrev pub PosChain : Type 0
PosChain = Chain Staking

abbrev pub PosWork : Type 0
PosWork = Work Aux

-- `sum(amt for (amt, _, _) in q)`
unfoldable pub bonded_in : List Bond → ℕ
bonded_in [] = 0
bonded_in (b ∷ bs) = b.amount + bonded_in bs

-- `sum(amt for q in unbonding.values() for (amt, _, _) in q)`
unfoldable pub unbonding_total : Dict Text (List Bond) → ℕ
unfolding bonded_in
unbonding_total [] = 0
unbonding_total ((a, q) ∷ u) = bonded_in q + unbonding_total u

-- Liquid, staked and unbonding units together.
unfoldable pub supply : PosWork → ℕ
unfolding unbonding_total
supply w = total w.balances + total w.aux.stakes + unbonding_total w.aux.unbonding

-- ProofOfStakeChain.total_supply
unfoldable pub total_supply : PosChain → ℕ
unfolding unbonding_total
total_supply c =
    total c.balances + total c.self.state.stakes + unbonding_total c.self.state.unbonding

-- `balances[a] -= n`, after a test that `n` is covered: a missing key is a KeyError.
unfoldable pub debit : Text → ℕ → Balances → Result Balances
debit a n d = if contains a d then ok (put a (get_or a 0 d - n) d) else err key_error
