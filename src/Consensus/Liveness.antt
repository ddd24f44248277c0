-- ===== src/Consensus/Liveness.antt =====
-- Whoever submits what, the stakes stay well formed, and only a slash can leave no validator.
use mindees_blockchain.Prelude.{
  ℕ, ◌+◌, ◌<◌, ◌≡◌, ◌≢◌, Bool, true, false, text_eq, List, [], ◌∷◌, Text, Text_eq, text_eq_iff,
  arith, All, refl,
}
use mindees_blockchain.Dict.{Dict, IsUnique, total, add, get_or}
use mindees_blockchain.Json.{Json, units}
use mindees_blockchain.Primitives.{Primitives, Bytes}
use mindees_blockchain.Core.Transaction.{
  Transaction, stake_sentinel, slash_sentinel, vote_sentinel, is_valid, txid,
}
use mindees_blockchain.Core.Block.{Block, hash, header}
use mindees_blockchain.Core.Encoding.{sha256, canonical}
use mindees_blockchain.Core.Encoding.Hex.{from_hex-hex}
use mindees_blockchain.Core.Chain.{Balances, transfer, apply_txs, begin}
use mindees_blockchain.Core.Chain.Steps.{apply_txs-Round, submit_block-Accepted}
use mindees_blockchain.Consensus.Election.{elect, seed_of}
use mindees_blockchain.Consensus.Election.Draw.{elect_validator_wins}
use mindees_blockchain.Consensus.State.{Config, PosWork, PosChain, Staking}
use mindees_blockchain.Consensus.Stake.{apply_stake, apply_unstake}
use mindees_blockchain.Consensus.Vote.{apply_vote}
use mindees_blockchain.Consensus.Slash.{apply_slash}
use mindees_blockchain.Consensus.Rules.{
  apply_tx, vest, apply_block_pre, snapshot_checkpoint, pos_hooks, submit, next_validator,
}
use mindees_blockchain.Consensus.Genesis.{GenesisArgs, place_stakes, init}
use mindees_blockchain.Consensus.Reach.{Reach, Reach-keeps}
use mindees_blockchain.Consensus.Validators.{
  ValidStakes, AreStaffed, Leaves, KeepsStakes, apply_stake-AreStaffed, apply_unstake-AreStaffed,
  settle_slash-ValidStakes, transfer-KeepsStakes, cast_vote-KeepsStakes, credit-AreStaffed,
}
use mindees_blockchain.Result.{Result, ok, err, ◌>>=◌, Returns}

pub AreStaffed-ValidStakes : (s : Balances) → AreStaffed s → ValidStakes s
unfolding AreStaffed
AreStaffed-ValidStakes s h = h.0

not_true : {b : Bool} → b ≡ false → b ≢ true
not_true h k = cc (h, k)

stake_not_slash : stake_sentinel ≢ slash_sentinel
unfolding text_eq
stake_not_slash h = not_true refl ((text_eq_iff stake_sentinel slash_sentinel).1 h)

stake_not_vote : stake_sentinel ≢ vote_sentinel
unfolding text_eq
stake_not_vote h = not_true refl ((text_eq_iff stake_sentinel vote_sentinel).1 h)

vest-Leaves :
    ⦃p : Primitives⦄ (P : Balances → Type 0) (cfg : Config) (tx : Transaction) (block : Block)
    (r : Result PosWork)
    → Leaves P r
    → Leaves P (r >>= vest cfg tx block)
vest-Leaves P cfg tx block (err e) h = tt
vest-Leaves P cfg tx block (ok w) h = ground arith

module _ ⦃p : Primitives⦄ where
  has_amount :
      (tx : Transaction)
      → is_valid tx ≡ true
      → tx.recipient ≢ slash_sentinel
      → tx.recipient ≢ vote_sentinel
      → 0 < units tx.amount
  unfolding is_valid
  has_amount tx valid not_slash not_vote =
      ground
        (arith, text_eq_iff tx.recipient slash_sentinel, text_eq_iff tx.recipient vote_sentinel)

module _ ⦃p : Primitives⦄ (cfg : Config) (tx : Transaction) (block : Block) (w : PosWork) where
  apply_vote-KeepsStakes : KeepsStakes w (apply_vote cfg tx block w)
  unfolding apply_vote
  apply_vote-KeepsStakes = grind (arith, cast_vote-KeepsStakes)

  apply_slash-ValidStakes :
      ValidStakes w.aux.stakes → Leaves ValidStakes (apply_slash cfg tx block w)
  unfolding apply_slash
  apply_slash-ValidStakes h = grind (arith, settle_slash-ValidStakes)

  stake_amount : is_valid tx ≡ true → tx.recipient ≡ stake_sentinel → 0 < units tx.amount
  stake_amount valid e = has_amount tx valid (rw e stake_not_slash) (rw e stake_not_vote)

  apply_tx-AreStaffed :
      is_valid tx ≡ true
      → tx.recipient ≢ slash_sentinel
      → AreStaffed w.aux.stakes
      → Leaves AreStaffed (apply_tx cfg tx block w)
  unfolding apply_tx
  apply_tx-AreStaffed valid not_slash h = ground (
    arith,
    AreStaffed-ValidStakes w.aux.stakes h,
    vest-Leaves AreStaffed cfg tx block (apply_stake tx block w),
    vest-Leaves AreStaffed cfg tx block (apply_unstake cfg tx block w),
    vest-Leaves AreStaffed cfg tx block (transfer tx block w),
    apply_stake-AreStaffed tx block w,
    apply_unstake-AreStaffed cfg tx block w,
    transfer-KeepsStakes tx block w,
    apply_vote-KeepsStakes,
    stake_amount,
    text_eq_iff tx.recipient slash_sentinel,
    text_eq_iff tx.recipient stake_sentinel,
  )

  pub apply_tx-ValidStakes :
      is_valid tx ≡ true → ValidStakes w.aux.stakes → Leaves ValidStakes (apply_tx cfg tx block w)
  unfolding apply_tx
  apply_tx-ValidStakes valid h = grind (
    arith,
    AreStaffed-ValidStakes,
    vest-Leaves ValidStakes cfg tx block,
    apply_stake-AreStaffed tx block w,
    apply_unstake-AreStaffed cfg tx block w,
    transfer-KeepsStakes tx block w,
    apply_slash-ValidStakes,
    apply_vote-KeepsStakes,
    stake_amount,
    text_eq_iff tx.recipient stake_sentinel,
  )

-- No transaction reports an offense.
abbrev pub NoSlash : List Transaction → Type 0
NoSlash txs = All (λ (tx : Transaction). tx.recipient ≢ slash_sentinel) txs

module _ ⦃p : Primitives⦄ (self : Staking) (block : Block) where
  apply_txs-ValidStakes :
      (seen : List Text) (txs : List Transaction) (w : PosWork) {w' : PosWork}
      → apply_txs pos_hooks self block seen txs w ≡ ok w'
      → ValidStakes w.aux.stakes
      → ValidStakes w'.aux.stakes
  unfolding apply_txs
  apply_txs-ValidStakes seen [] w run h = ground arith
  apply_txs-ValidStakes seen (tx ∷ txs) w run h =
      let r = apply_txs-Round pos_hooks self block seen tx txs w run in
      apply_txs-ValidStakes (add (txid tx) seen) txs r.middle r.rest
        (ground (arith, r.applied, apply_tx-ValidStakes self.config tx block w r.valid h))

  apply_txs-AreStaffed :
      (seen : List Text) (txs : List Transaction) (w : PosWork) {w' : PosWork}
      → apply_txs pos_hooks self block seen txs w ≡ ok w'
      → NoSlash txs
      → AreStaffed w.aux.stakes
      → AreStaffed w'.aux.stakes
  unfolding apply_txs
  apply_txs-AreStaffed seen [] w run plain h = ground arith
  apply_txs-AreStaffed seen (tx ∷ txs) w run plain h =
      let r = apply_txs-Round pos_hooks self block seen tx txs w run in
      apply_txs-AreStaffed (add (txid tx) seen) txs r.middle r.rest plain.1
        (ground (arith, r.applied, apply_tx-AreStaffed self.config tx block w r.valid plain.0 h))

module _ ⦃p : Primitives⦄ (c : PosChain) (block : Block) where
  pub begin-stakes : (begin pos_hooks c block).aux.stakes ≡ c.self.state.stakes
  unfolding begin apply_block_pre snapshot_checkpoint
  begin-stakes = ground arith

module _ ⦃p : Primitives⦄ (c : PosChain) (block : Block) {c' : PosChain} where
  pub submit-ValidStakes :
      submit c block ≡ ok c' → ValidStakes c.self.state.stakes → ValidStakes c'.self.state.stakes
  unfolding submit
  submit-ValidStakes run h =
      let a = submit_block-Accepted pos_hooks c block run in
      rw a.result (
        apply_txs-ValidStakes c.self block [] block.transactions (begin pos_hooks c block) a.run
          (rw (begin-stakes c block) h))

  pub submit-AreStaffed :
      submit c block ≡ ok c'
      → NoSlash block.transactions
      → AreStaffed c.self.state.stakes
      → AreStaffed c'.self.state.stakes
  unfolding submit
  submit-AreStaffed run plain h =
      let a = submit_block-Accepted pos_hooks c block run in
      rw a.result (
        apply_txs-AreStaffed c.self block [] block.transactions (begin pos_hooks c block) a.run
          plain (rw (begin-stakes c block) h))

-- The rest of genesis.
pub place_stakes-AreStaffed :
    (d : Dict Text Json) (balances stakes : Balances)
    → AreStaffed stakes
    → Returns (λ r. AreStaffed r.1) (place_stakes d (balances, stakes))
unfolding place_stakes
place_stakes-AreStaffed [] balances stakes h = h
place_stakes-AreStaffed ((a, v) ∷ d) balances stakes h = grind (
  arith,
  AreStaffed-ValidStakes stakes h,
  credit-AreStaffed a (units v) stakes,
  place_stakes-AreStaffed d,
)

pub no_stakes : ValidStakes []
unfolding ValidStakes
no_stakes = (tt, tt)

place_stakes-ValidStakes :
    (d : Dict Text Json) (balances : Balances)
    → Returns (λ r. ValidStakes r.1) (place_stakes d (balances, []))
unfolding place_stakes
place_stakes-ValidStakes [] balances = no_stakes
place_stakes-ValidStakes ((a, v) ∷ d) balances = grind (
  arith,
  no_stakes,
  AreStaffed-ValidStakes,
  credit-AreStaffed a (units v) [],
  place_stakes-AreStaffed d,
)

module _ ⦃p : Primitives⦄ where
  pub init-ValidStakes : (g : GenesisArgs) → Returns (λ c. ValidStakes c.self.state.stakes) (init g)
  unfolding init
  init-ValidStakes g = grind (arith, place_stakes-ValidStakes g.initial_stakes)

  -- Whatever blocks a chain has accepted since a genesis that was accepted, no address has two
  -- entries among the stakes, and no entry is 0.
  pub Reach-ValidStakes :
      (g : GenesisArgs) {c d : PosChain}
      → init g ≡ ok c
      → Reach c d
      → ValidStakes d.self.state.stakes
  Reach-ValidStakes g {c} start r =
      Reach-keeps (λ d. ValidStakes d.self.state.stakes) (λ d e block. submit-ValidStakes d block) r
        (ground (arith, init-ValidStakes g))

pub total-positive : (s : Balances) → AreStaffed s → 0 < total s
unfolding AreStaffed total
total-positive [] h = ground arith
total-positive ((a, n) ∷ s) h = ground arith

pub AreStaffed-IsUnique : (s : Balances) → AreStaffed s → IsUnique s
unfolding AreStaffed
AreStaffed-IsUnique s h = h.0.0

-- What `bytes` holds.
abbrev pub AreBytes : Bytes → Type 0
AreBytes m = All (λ (b : ℕ). b < 256) m

module _ ⦃p : Primitives⦄ where
  seed_of-hash :
      (b : Block) (index : ℕ)
      → ((m : Bytes) → AreBytes (sha256 m))
      → (seed : Bytes) × (seed_of (hash b) index ≡ ok seed)
  unfolding seed_of hash
  seed_of-hash b index bytes = rw (from_hex-hex (sha256 (canonical (header b))) (bytes _)) (_, refl)

  -- A chain with a validator has a proposer for its next block.
  pub proposer_exists :
      (c : PosChain)
      → ((m : Bytes) → AreBytes (sha256 m))
      → AreStaffed c.self.state.stakes
      → (a : Text) × (next_validator c ≡ ok a) × (0 < get_or a 0 c.self.state.stakes)
  unfolding next_validator elect
  proposer_exists c bytes h =
      let stakes = c.self.state.stakes in
      let (seed, seeded) = seed_of-hash c.head (c.head.index + 1) bytes in
      let (a, e, d, pos) =
        elect_validator_wins stakes seed (AreStaffed-IsUnique stakes h) (total-positive stakes h) in
      (a, rw seeded e, pos)
