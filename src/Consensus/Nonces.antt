-- ===== src/Consensus/Nonces.antt =====
-- Nonces: a sender's transactions are accepted once each, in the order of their nonces.
use mindees_blockchain.Prelude.{
  ℕ, ◌+◌, ◌≤◌, ◌≡◌, List, [], ◌∷◌, Text, Text_eq, ◌==◌, arith, text_eq_iff, Bool-cases,
}
use mindees_blockchain.Dict.{
  get_or, put, add, get_or-put_self, get_or-put_ne, get_or-set_default_self,
}
use mindees_blockchain.Json.{units}
use mindees_blockchain.Primitives.{Primitives}
use mindees_blockchain.Core.Transaction.{Transaction, txid}
use mindees_blockchain.Core.Block.{Block}
use mindees_blockchain.Core.Chain.{Balances, transfer, apply_txs}
use mindees_blockchain.Consensus.State.{Config, Staking, PosChain, PosWork, Offense}
use mindees_blockchain.Consensus.Evidence.{Link}
use mindees_blockchain.Consensus.Stake.{apply_stake, apply_unstake, release_stake}
use mindees_blockchain.Consensus.Vote.{apply_vote, cast_vote}
use mindees_blockchain.Consensus.Slash.{apply_slash, settle_slash, confiscate}
use mindees_blockchain.Consensus.Rules.{apply_tx, vest, pos_hooks}
use mindees_blockchain.Result.{Result, ok, err, ◌>>=◌, Returns}

-- ProofOfStakeChain.nonces.get(address, 0)
abbrev pub nonce_of : Text → PosChain → ℕ
nonce_of a c = get_or a 0 c.nonces

-- The nonces of the work `w` after one transaction `tx`.
abbrev pub next_nonces : Transaction → PosWork → Balances
next_nonces tx w = put tx.sender (units tx.nonce + 1) w.nonces

-- The result of `tx` has, for the address `a`, the nonce that `tx` leaves it.
abbrev pub Steps : Text → Transaction → PosWork → Result PosWork → Type 0
Steps a tx w r = Returns (λ w'. get_or a 0 w'.nonces ≡ get_or a 0 (next_nonces tx w)) r

module _ (a : Text) (tx : Transaction) (block : Block) (w : PosWork) where
  transfer-Steps : Steps a tx w (transfer tx block w)
  unfolding transfer
  transfer-Steps = ground (arith, get_or-set_default_self a tx.recipient 0 (next_nonces tx w))

  apply_stake-Steps : Steps a tx w (apply_stake tx block w)
  unfolding apply_stake
  apply_stake-Steps = ground arith

  release_stake_nonces : (cfg : Config) → (release_stake cfg tx block w).nonces ≡ w.nonces
  unfolding release_stake
  release_stake_nonces cfg = ground arith

module _ (a : Text) (cfg : Config) (tx : Transaction) (block : Block) (w : PosWork) where
  apply_unstake-Steps : Steps a tx w (apply_unstake cfg tx block w)
  unfolding apply_unstake
  apply_unstake-Steps = grind (arith, release_stake_nonces)

  cast_vote-Steps : (l : Link) → Steps a tx w (cast_vote cfg l tx block w)
  unfolding cast_vote
  cast_vote-Steps l = ground arith

  settle_slash-Steps :
      (treasury : Text) (found : Text × Offense)
      → Steps a tx w (settle_slash treasury found tx block w)
  unfolding settle_slash confiscate
  settle_slash-Steps treasury (offender, key) = ground arith

  module _ ⦃p : Primitives⦄ where
    apply_vote-Steps : Steps a tx w (apply_vote cfg tx block w)
    unfolding apply_vote
    apply_vote-Steps = grind (arith, cast_vote-Steps)

    apply_slash-Steps : Steps a tx w (apply_slash cfg tx block w)
    unfolding apply_slash
    apply_slash-Steps = grind (arith, settle_slash-Steps)

    vest-Steps : (r : Result PosWork) → Steps a tx w r → Steps a tx w (r >>= vest cfg tx block)
    vest-Steps (err e) h = tt
    vest-Steps (ok w') h = ground arith

    pub apply_tx-Steps : Steps a tx w (apply_tx cfg tx block w)
    unfolding apply_tx
    apply_tx-Steps = ground (
      arith,
      vest-Steps (apply_stake tx block w) (apply_stake-Steps a tx block w),
      vest-Steps (apply_unstake cfg tx block w) apply_unstake-Steps,
      vest-Steps (transfer tx block w) (transfer-Steps a tx block w),
      apply_slash-Steps,
      apply_vote-Steps,
    )

pub next_nonces_le :
    (a : Text) (tx : Transaction) (w : PosWork)
    → get_or tx.sender 0 w.nonces ≡ units tx.nonce
    → get_or a 0 w.nonces ≤ get_or a 0 (next_nonces tx w)
next_nonces_le a tx w h = ground (
  arith,
  text_eq_iff a tx.sender,
  Bool-cases (a == tx.sender),
  get_or-put_self tx.sender (units tx.nonce + 1) 0 w.nonces,
  get_or-put_ne a tx.sender (units tx.nonce + 1) 0 w.nonces,
)

abbrev pub Mono : Text → PosWork → Result PosWork → Type 0
Mono a w r = Returns (λ w'. get_or a 0 w.nonces ≤ get_or a 0 w'.nonces) r

module _ ⦃p : Primitives⦄ (s : Staking) (block : Block) where
  -- The nonce of an address never falls in the course of a block.
  pub apply_txs-Mono :
      (a : Text) (seen : List Text) (txs : List Transaction) (w : PosWork)
      → Mono a w (apply_txs pos_hooks s block seen txs w)
  unfolding apply_txs
  apply_txs-Mono a seen [] w = omega arith
  apply_txs-Mono a seen (tx ∷ txs) w = grind (
    arith,
    apply_tx-Steps a s.config tx block w,
    next_nonces_le a tx w,
    apply_txs-Mono a (add (txid tx) seen) txs,
  )
