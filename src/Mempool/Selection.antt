-- ===== src/Mempool/Selection.antt =====
-- What a block may hold, and what a sender may spend in it.
use mindees_blockchain.Prelude.{
  ℕ, zero, suc, ◌+◌, ◌-◌, ◌≤◌, ◌<◌, ◌≡◌, ◌≢◌, ◌⊎◌, inl, inr, List, [], ◌∷◌, arith, length,
  Bool-cases, ◌==◌, Text_eq, text_eq_iff, eqb, ltb, subst, sym,
}
use mindees_blockchain.Json.{units}
use mindees_blockchain.Core.Transaction.{
  Transaction, slash_sentinel, vote_sentinel, unstake_sentinel,
}
use mindees_blockchain.Consensus.State.{PosChain}
use mindees_blockchain.Mempool.{Pool, Queues, cost, merge, select, ready_run}

length-merge : (n : ℕ) (queues : Queues) → length (merge n queues) ≤ n
unfolding merge
length-merge zero queues = omega arith
length-merge (suc n) queues = grind (arith, length-merge n)

-- The selection never holds more transactions than the capacity of the block.
length-select :
    (c : PosChain) (max_count : ℕ) (pool : Pool) → length (select c max_count pool) ≤ max_count
unfolding select
length-select c max_count pool = length-merge max_count _

-- What a balance has to cover, and what is left of it: a slash and a vote cost their fee; so does a
-- withdrawal of stake, which without an unbonding period brings the amount back at once; a stake and
-- a payment cost amount and fee.
pub data Pays (unbonding_blocks : ℕ) (t : Transaction) (balance rest : ℕ) : Type 0 where
  for_evidence :
      (t.recipient ≡ slash_sentinel) ⊎ (t.recipient ≡ vote_sentinel)
      → rest + units t.fee ≡ balance
      → Pays unbonding_blocks t balance rest
  for_delayed :
      t.recipient ≡ unstake_sentinel
      → 0 < unbonding_blocks
      → rest + units t.fee ≡ balance
      → Pays unbonding_blocks t balance rest
  for_instant :
      t.recipient ≡ unstake_sentinel
      → unbonding_blocks ≡ 0
      → units t.fee ≤ balance
      → rest + units t.fee ≡ balance + units t.amount
      → Pays unbonding_blocks t balance rest
  for_amount :
      t.recipient ≢ slash_sentinel
      → t.recipient ≢ vote_sentinel
      → t.recipient ≢ unstake_sentinel
      → rest + (units t.amount + units t.fee) ≡ balance
      → Pays unbonding_blocks t balance rest

-- The longest run of transactions, from the start of the list, whose nonces count up from the
-- expected one and each of which is paid out of what the ones before it leave.
pub data IsRun (unbonding_blocks : ℕ) : ℕ → ℕ → List Transaction → List Transaction → Type 0 where
  at_end : {expected balance : ℕ} → IsRun unbonding_blocks expected balance [] []
  at_gap :
      {expected balance : ℕ} {t : Transaction} {ts : List Transaction}
      → units t.nonce ≢ expected
      → IsRun unbonding_blocks expected balance (t ∷ ts) []
  at_unpaid :
      {expected balance : ℕ} {t : Transaction} {ts : List Transaction}
      → ((rest : ℕ) → ¬ Pays unbonding_blocks t balance rest)
      → IsRun unbonding_blocks expected balance (t ∷ ts) []
  taken :
      {expected balance rest : ℕ} {t : Transaction} {ts run : List Transaction}
      → units t.nonce ≡ expected
      → Pays unbonding_blocks t balance rest
      → IsRun unbonding_blocks (expected + 1) rest ts run
      → IsRun unbonding_blocks expected balance (t ∷ ts) (t ∷ run)

-- No more leaves the balance than what has to cover it.
out_within :
    (t : Transaction) (unbonding_blocks : ℕ)
    → (cost t unbonding_blocks).out ≤ (cost t unbonding_blocks).required
unfolding cost
out_within t unbonding_blocks = ground arith

module _ (unbonding_blocks : ℕ) (t : Transaction) (balance : ℕ) where
  cost-Pays :
      (rest : ℕ)
      → (cost t unbonding_blocks).required ≤ balance
      → rest + (cost t unbonding_blocks).out ≡ balance + (cost t unbonding_blocks).back
      → Pays unbonding_blocks t balance rest
  unfolding cost
  cost-Pays rest covered left = elim (Bool-cases (t.recipient == slash_sentinel)) [
    | inl s ↦ for_evidence (inl ((text_eq_iff t.recipient slash_sentinel).0 s)) (ground arith)
    | inr s ↦ elim (Bool-cases (t.recipient == vote_sentinel)) [
      | inl v ↦ for_evidence (inr ((text_eq_iff t.recipient vote_sentinel).0 v)) (ground arith)
      | inr v ↦ elim (Bool-cases (t.recipient == unstake_sentinel)) [
        | inr u ↦
            for_amount (ground (arith, text_eq_iff t.recipient slash_sentinel))
              (ground (arith, text_eq_iff t.recipient vote_sentinel))
              (ground (arith, text_eq_iff t.recipient unstake_sentinel)) (ground arith)
        | inl u ↦ elim (Bool-cases (ltb 0 unbonding_blocks)) [
          | inl late ↦
              for_delayed ((text_eq_iff t.recipient unstake_sentinel).0 u) (ground arith)
                (ground arith)
          | inr now ↦
              for_instant ((text_eq_iff t.recipient unstake_sentinel).0 u) (ground arith)
                (ground arith) (ground arith)
        ]
      ]
    ]
  ]

  Pays-covered :
      (rest : ℕ)
      → Pays unbonding_blocks t balance rest
      → (cost t unbonding_blocks).required ≤ balance
  unfolding cost
  Pays-covered rest (for_evidence e paid) = ground (
    arith,
    text_eq_iff t.recipient slash_sentinel,
    text_eq_iff t.recipient vote_sentinel,
    e,
    paid,
  )
  Pays-covered rest (for_delayed e pos paid) =
      ground (arith, text_eq_iff t.recipient unstake_sentinel, e, paid)
  Pays-covered rest (for_instant e zero_blocks covered paid) =
      ground (arith, text_eq_iff t.recipient unstake_sentinel, e, covered)
  Pays-covered rest (for_amount s v u paid) = ground (
    arith,
    text_eq_iff t.recipient slash_sentinel,
    text_eq_iff t.recipient vote_sentinel,
    text_eq_iff t.recipient unstake_sentinel,
    s,
    v,
    u,
    paid,
  )

-- The run of a sender is the longest one, from the first of its transactions, with consecutive nonces
-- from the next one of the chain, each paid out of what the balance of the sender is then.
pub ready_run-IsRun :
    (unbonding_blocks expected balance : ℕ) (txs : List Transaction)
    → IsRun unbonding_blocks expected balance txs (ready_run unbonding_blocks expected balance txs)
unfolding ready_run
ready_run-IsRun unbonding_blocks expected balance [] = at_end
ready_run-IsRun unbonding_blocks expected balance (t ∷ ts) =
    let c = cost t unbonding_blocks in
    let left = balance + c.back - c.out in
    let IsResult = IsRun unbonding_blocks expected balance (t ∷ ts) in
    elim (Bool-cases (eqb (units t.nonce) expected)) [
      | inr gap ↦
          let stops : ready_run unbonding_blocks expected balance (t ∷ ts) ≡ [] =
            ground (arith, gap) in
          subst IsResult (sym stops) (at_gap (ground (arith, gap)))
      | inl due ↦ elim (Bool-cases (ltb balance c.required)) [
        | inl short ↦
            let stops : ready_run unbonding_blocks expected balance (t ∷ ts) ≡ [] =
              ground (arith, due, short) in
            let unpaid : (rest : ℕ) → ¬ Pays unbonding_blocks t balance rest = λ rest paid.
              absurd (ground (arith, short, Pays-covered unbonding_blocks t balance rest paid)) in
            subst IsResult (sym stops) (at_unpaid unpaid)
        | inr covered ↦
            let run = ready_run unbonding_blocks (expected + 1) left ts in
            let goes : ready_run unbonding_blocks expected balance (t ∷ ts) ≡ t ∷ run =
              ground (arith, due, covered) in
            let paid : Pays unbonding_blocks t balance left =
              cost-Pays unbonding_blocks t balance left (ground (arith, covered))
                (ground (arith, covered, out_within t unbonding_blocks)) in
            subst IsResult (sym goes) (
              taken (ground (arith, due)) paid
                (ready_run-IsRun unbonding_blocks (expected + 1) left ts))
      ]
    ]
