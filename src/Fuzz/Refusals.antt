-- ===== src/Fuzz/Refusals.antt =====
-- Blocks with the defects of fuzz.py, before ProofOfStakeChain.submit_block.
use mindees_blockchain.Prelude.{
  ℕ, ◌+◌, ◌<◌, ◌≡◌, ◌≢◌, List, [], ◌∷◌, Text, Text_eq, arith, not, text_eq_iff, ◌==◌, subst,
}
use mindees_blockchain.Dict.{get_or, add, member-add_self}
use mindees_blockchain.Json.{Json, num, units}
use mindees_blockchain.Primitives.{Primitives}
use mindees_blockchain.Core.Signature.{Wallet, address}
use mindees_blockchain.Core.Transaction.{
  Transaction, txid, sign, stake_sentinel, unstake_sentinel, slash_sentinel, vote_sentinel,
}
use mindees_blockchain.Core.Block.{Block, hash, post_init}
use mindees_blockchain.Core.Chain.{transfer, apply_txs, begin, Balances}
use mindees_blockchain.Core.Chain.Steps.{Round, apply_txs-Round, Accepted, submit_block-Accepted}
use mindees_blockchain.Consensus.State.{PosChain, PosWork, Config}
use mindees_blockchain.Consensus.Rules.{apply_tx, pos_hooks, submit, check_proposer}
use mindees_blockchain.Consensus.Build.{seal_block, add_block}
use mindees_blockchain.Consensus.Election.{elect, elect_validator, seed_of}
use mindees_blockchain.Consensus.Election.Draw.{elect_validator_wins}
use mindees_blockchain.Consensus.Liveness.{AreStaffed-IsUnique, total-positive}
use mindees_blockchain.Consensus.Validators.{AreStaffed}
use mindees_blockchain.Consensus.Instant.{IsInstant, begin_instant}
use mindees_blockchain.Fuzz.{pay}
use mindees_blockchain.Result.{
  ok, err, invalid, insufficient_funds, wrong_proposer, raise_if-eq-ok, Returns, >>=-eq-ok,
}

-- An address that names no operation.
abbrev pub IsPlain : Text → Type 0
IsPlain a =
    (a ≢ stake_sentinel) × (a ≢ unstake_sentinel) × (a ≢ slash_sentinel) × (a ≢ vote_sentinel)

module _ ⦃p : Primitives⦄ where
  -- What `add_block` has submitted.
  pub record Added (c d : PosChain) (txs : List Transaction) (w : Wallet) : Type 0 where
    pub block : Block
    pub holds_txs : block.transactions ≡ txs
    pub by : block.validator ≡ address w
    pub went : Accepted pos_hooks c block d

  seal_block_fields :
      (prev : Text) (i : ℕ) (w : Wallet) (txs : List Transaction) (ts n : Json)
      → Returns
          (λ b. (b.transactions ≡ txs) × (b.validator ≡ address w))
          (seal_block prev i w txs ts n)
  unfolding seal_block post_init
  seal_block_fields prev i w txs ts n = ground arith

  pub add_block-Added :
      (c d : PosChain) (txs : List Transaction) (w : Wallet) (ts n : Json)
      → add_block c txs w ts n ≡ ok d
      → Added c d txs w
  unfolding add_block submit
  add_block-Added c d txs w ts n h =
      let (block, made, taken) = >>=-eq-ok _ (submit c) {b = d} h in
      let (same, by) : (block.transactions ≡ txs) × (block.validator ≡ address w) =
        rw made at (seal_block_fields (hash c.head) (c.head.index + 1) w txs ts n) in
      record {
        block = block;
        holds_txs = same;
        by = by;
        went = submit_block-Accepted pos_hooks c block taken;
      }

  pub pay_fields :
      (s r : Wallet) (amount nonce : ℕ)
      → Returns
          (λ tx.
            (tx.sender ≡ address s)
            × (tx.recipient ≡ address r)
            × (tx.amount ≡ num amount)
            × (tx.fee ≡ num 0)
            × (tx.nonce ≡ num nonce))
          (pay s r amount nonce)
  unfolding sign
  pay_fields s r amount nonce = ground arith

  plain_overspend :
      (cfg : Config) (tx : Transaction) (block : Block) (w : PosWork)
      → IsPlain tx.recipient
      → get_or tx.sender 0 w.balances < units tx.amount + units tx.fee
      → apply_tx cfg tx block w ≡ err (invalid insufficient_funds)
  unfolding apply_tx transfer
  plain_overspend cfg tx block w (a, b, c, d) over = ground (
    arith,
    text_eq_iff tx.recipient stake_sentinel,
    text_eq_iff tx.recipient unstake_sentinel,
    text_eq_iff tx.recipient slash_sentinel,
    text_eq_iff tx.recipient vote_sentinel,
  )

  -- The loop over the transactions of a block that went in.
  first-Round :
      {c d : PosChain} {w : Wallet} (tx : Transaction) (txs : List Transaction)
      → (a : Added c d (tx ∷ txs) w)
      → Round pos_hooks c.self a.block [] tx txs (begin pos_hooks c a.block) a.went.work
  first-Round {c} tx txs a =
      apply_txs-Round pos_hooks c.self a.block [] tx txs (begin pos_hooks c a.block) (
        subst
          (λ ts.
            apply_txs pos_hooks c.self a.block [] ts (begin pos_hooks c a.block) ≡ ok a.went.work)
          a.holds_txs a.went.run)

  pub overspend_refused :
      {c d : PosChain} {w : Wallet} (tx : Transaction)
      → IsInstant c
      → IsPlain tx.recipient
      → get_or tx.sender 0 c.balances < units tx.amount + units tx.fee
      → ¬ Added c d (tx ∷ []) w
  overspend_refused {c} tx i plain over a =
      let r = first-Round tx [] a in
      let same = (begin_instant c a.block i).1 in
      cc (
        r.applied,
        plain_overspend c.self.config tx a.block (begin pos_hooks c a.block) plain (rw same over),
      )

  pub nonce_refused :
      {c d : PosChain} {w : Wallet} (tx : Transaction)
      → IsInstant c
      → get_or tx.sender 0 c.nonces < units tx.nonce
      → ¬ Added c d (tx ∷ []) w
  nonce_refused {c} tx i ahead a =
      let r = first-Round tx [] a in
      let same = (begin_instant c a.block i).2 in
      let e : get_or tx.sender 0 c.nonces ≡ units tx.nonce = rw (← same) r.in_order in
      absurd (omega (arith, e, ahead))

  pub dup_refused : {c d : PosChain} {w : Wallet} (tx : Transaction) → ¬ Added c d (tx ∷ tx ∷ []) w
  dup_refused {c} tx a =
      let r = first-Round tx (tx ∷ []) a in
      let s = apply_txs-Round pos_hooks c.self a.block (add (txid tx) []) tx [] r.middle r.rest in
      cc (s.fresh, member-add_self (txid tx) [])

  elected_has_stake :
      (stakes : Balances) (prev : Text) (i : ℕ) (a : Text)
      → AreStaffed stakes
      → elect stakes prev i ≡ ok a
      → 0 < get_or a 0 stakes
  unfolding elect
  elected_has_stake stakes prev i a h e =
      let (seed, seeded, drawn) = >>=-eq-ok (seed_of prev i) (elect_validator stakes) {b = a} e in
      let (b, elected, d, pos) =
        elect_validator_wins stakes seed (AreStaffed-IsUnique stakes h) (total-positive stakes h) in
      subst (λ v. 0 < get_or v 0 stakes) (cc (elected, drawn)) pos

  pub unstaked_refused :
      {c d : PosChain} {w : Wallet} (txs : List Transaction)
      → AreStaffed c.self.state.stakes
      → get_or (address w) 0 c.self.state.stakes ≡ 0
      → ¬ Added c d txs w
  unfolding check_proposer
  unstaked_refused {c} {w = w} txs staffed zero_stake a =
      let b = a.block in
      let (e, elected, h) =
        >>=-eq-ok (elect c.self.state.stakes b.previous_hash b.index) _ {b = tt} a.went.proposer in
      let (same, rest) = raise_if-eq-ok (not (b.validator == e)) wrong_proposer _ h in
      let pos = elected_has_stake c.self.state.stakes b.previous_hash b.index e staffed elected in
      let e_is : e ≡ address w = ground (arith, same, text_eq_iff b.validator e, a.by) in
      let pos' : 0 < get_or (address w) 0 c.self.state.stakes =
        subst (λ v. 0 < get_or v 0 c.self.state.stakes) e_is pos in
      absurd (omega (arith, pos', zero_stake))
