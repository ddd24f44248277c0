-- ===== src/Consensus/Replay.antt =====
-- Replay protection: what a block has included, no later block includes again.
use mindees_blockchain.Prelude.{
  ℕ, ◌+◌, ◌≤◌, ◌<◌, ◌≡◌, refl, inl, inr, List, [], ◌∷◌, Text, Text_eq, arith, IsIn, subst, sym, ◌≢◌,
}
use mindees_blockchain.Dict.{get_or, add, get_or-put_self}
use mindees_blockchain.Json.{units}
use mindees_blockchain.Primitives.{Primitives}
use mindees_blockchain.Core.Transaction.{Transaction, txid}
use mindees_blockchain.Core.Block.{Block}
use mindees_blockchain.Core.Chain.Steps.{apply_txs-Round, submit_block-Accepted}
use mindees_blockchain.Core.Chain.{apply_txs, begin}
use mindees_blockchain.Consensus.State.{Staking, PosChain, PosWork}
use mindees_blockchain.Consensus.Rules.{apply_block_pre, pos_hooks, submit}
use mindees_blockchain.Consensus.Reach.{Reach, Reach-keeps}
use mindees_blockchain.Consensus.Nonces.{nonce_of, apply_tx-Steps, apply_txs-Mono, next_nonces_le}
use mindees_blockchain.Result.{Result, ok}

-- The nonce of `tx` lies between those that its sender has before and after.
abbrev Spends : Transaction → ℕ → ℕ → Type 0
Spends tx before after = (before ≤ units tx.nonce) × (units tx.nonce < after)

module _ ⦃p : Primitives⦄ (s : Staking) (block : Block) where
  abbrev run : List Text → List Transaction → PosWork → Result PosWork
  run seen txs w = apply_txs pos_hooks s block seen txs w

  -- The transaction at the head of the list.
  head_Spends :
      (seen : List Text) (tx : Transaction) (txs : List Transaction) (w : PosWork) {w' : PosWork}
      → run seen (tx ∷ txs) w ≡ ok w'
      → Spends tx (get_or tx.sender 0 w.nonces) (get_or tx.sender 0 w'.nonces)
  head_Spends seen tx txs w h =
      let r = apply_txs-Round pos_hooks s block seen tx txs w h in
      ground (
        arith,
        r.in_order,
        r.applied,
        r.rest,
        apply_tx-Steps tx.sender s.config tx block w ⦃p = p⦄,
        get_or-put_self tx.sender (units tx.nonce + 1) 0 w.nonces,
        apply_txs-Mono s block tx.sender (add (txid tx) seen) txs r.middle,
      )

  apply_txs_Spends :
      (tx : Transaction) (seen : List Text) (txs : List Transaction) (w : PosWork) {w' : PosWork}
      → IsIn tx txs
      → run seen txs w ≡ ok w'
      → Spends tx (get_or tx.sender 0 w.nonces) (get_or tx.sender 0 w'.nonces)
  apply_txs_Spends tx seen [] w m h = absurd m
  apply_txs_Spends tx seen (t ∷ txs) w {w'} (inl e) h =
      subst (λ u. Spends u (get_or u.sender 0 w.nonces) (get_or u.sender 0 w'.nonces)) (sym e)
        (head_Spends seen t txs w h)
  apply_txs_Spends tx seen (t ∷ txs) w (inr m) h =
      let r = apply_txs-Round pos_hooks s block seen t txs w h in
      ground (
        arith,
        r.in_order,
        r.applied,
        apply_tx-Steps tx.sender s.config t block w ⦃p = p⦄,
        next_nonces_le tx.sender t w,
        apply_txs_Spends tx (add (txid t) seen) txs r.middle m r.rest,
      )

module _ ⦃p : Primitives⦄ where
  begin_nonces : (c : PosChain) (block : Block) → (begin pos_hooks c block).nonces ≡ c.nonces
  unfolding begin apply_block_pre
  begin_nonces c block = refl

  -- A block that is accepted spends each of its transactions: the transaction's nonce is not below
  -- the one that its sender had before, and below the one that the sender has afterwards.
  pub submit-spends :
      (c : PosChain) (block : Block) (tx : Transaction) {c' : PosChain}
      → submit c block ≡ ok c'
      → IsIn tx block.transactions
      → (nonce_of tx.sender c ≤ units tx.nonce) × (units tx.nonce < nonce_of tx.sender c')
  unfolding submit
  submit-spends c block tx h m =
      let a = submit_block-Accepted pos_hooks c block h in
      ground (
        arith,
        a.result,
        begin_nonces c block,
        apply_txs_Spends c.self block tx [] block.transactions (begin pos_hooks c block) m a.run,
      )

  nonce_of_mono :
      (a : Text) (d e : PosChain) (block : Block)
      → submit d block ≡ ok e
      → nonce_of a d ≤ nonce_of a e
  unfolding submit
  nonce_of_mono a d e block h =
      let r = submit_block-Accepted pos_hooks d block h in
      ground (
        arith,
        r.result,
        r.run,
        begin_nonces d block,
        apply_txs-Mono d.self block a [] block.transactions (begin pos_hooks d block),
      )

  Reach-nonces : (a : Text) {c d : PosChain} → Reach c d → nonce_of a c ≤ nonce_of a d
  Reach-nonces a {c} r =
      Reach-keeps (λ d. nonce_of a c ≤ nonce_of a d)
        (λ d e block s h. omega (arith, nonce_of_mono a d e block s)) r (omega arith)

  -- Once a block has included a transaction, no later block that includes a transaction of the
  -- same sender with the same or a smaller nonce is accepted: there is no replay.
  pub submit_no_replay :
      (c : PosChain) (b₁ b₂ : Block) (tx₁ tx₂ : Transaction) {c' d e : PosChain}
      → submit c b₁ ≡ ok c'
      → IsIn tx₁ b₁.transactions
      → Reach c' d
      → IsIn tx₂ b₂.transactions
      → tx₂.sender ≡ tx₁.sender
      → units tx₂.nonce ≤ units tx₁.nonce
      → submit d b₂ ≢ ok e
  submit_no_replay c b₁ b₂ tx₁ tx₂ {d = d} first m₁ later m₂ same le second = ground (
    arith,
    submit-spends c b₁ tx₁ first m₁,
    submit-spends d b₂ tx₂ second m₂,
    Reach-nonces tx₁.sender later,
  )
