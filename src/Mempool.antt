-- ===== src/Mempool.antt =====
-- mempool.py: the pool of pending transactions and the fee market.
pub mod Selection
use mindees_blockchain.Prelude.{
  ℕ, zero, suc, ◌+◌, ◌-◌, Bool, true, false, ◌&&◌, ◌||◌, Option, none, some, List, [], ◌∷◌, ◌++◌,
  Text, Text_eq, ◌==◌, ltb, leb, eqb, not, if◌then◌else◌, length,
}
use mindees_blockchain.Dict.{Dict, get_or, contains, put, erase}
use mindees_blockchain.Json.{units}
use mindees_blockchain.Primitives.{Primitives}
use mindees_blockchain.Core.Transaction.{
  Transaction, txid, is_valid, slash_sentinel, vote_sentinel, unstake_sentinel,
}
use mindees_blockchain.Consensus.State.{PosChain}
use mindees_blockchain.Result.{
  Result, ok, err, value_error, raise_if, ◌>>=◌, ◌>>◌, invalid_tx, fee_below_floor, nonce_spent,
  pool_full,
}

abbrev pub max_txs_per_block : ℕ
max_txs_per_block = 5000

abbrev pub min_fee : ℕ
min_fee = 0

abbrev pub max_pool_size : ℕ
max_pool_size = 50_000

-- What `_cost` returns: the balance required before the transaction, and the change of the balance
-- as what leaves it and what comes back.
pub record Cost : Type 0 where
  pub required : ℕ
  pub out : ℕ
  pub back : ℕ

unfoldable pub cost : Transaction → ℕ → Cost
cost tx unbonding_blocks =
    if tx.recipient == slash_sentinel || tx.recipient == vote_sentinel
    then record { required = units tx.fee; out = units tx.fee; back = 0 }
    else if tx.recipient == unstake_sentinel
    then record {
      required = units tx.fee;
      out = units tx.fee;
      back = if ltb 0 unbonding_blocks then 0 else units tx.amount;
    }
    else record {
      required = units tx.amount + units tx.fee;
      out = units tx.amount + units tx.fee;
      back = 0;
    }

-- txid -> transaction
abbrev pub Pool : Type 0
Pool = Dict Text Transaction

-- The first of the entries with the lowest fee.
unfoldable pub cheapest : Transaction → Pool → Transaction
cheapest best [] = best
cheapest best ((i, t) ∷ pool) =
    cheapest (if ltb (units t.fee) (units best.fee) then t else best) pool

module _ ⦃p : Primitives⦄ where
  -- A full pool gives up its cheapest entry to a higher fee.
  unfoldable pub make_room : ℕ → Transaction → Pool → Result Pool
  unfolding cheapest
  make_room size tx [] = if leb size 0 then err value_error else ok []
  make_room size tx ((i, t) ∷ rest) =
      if leb size (length ((i, t) ∷ rest))
      then raise_if (leb (units tx.fee) (units (cheapest t rest).fee)) pool_full
        >> ok (erase (txid (cheapest t rest)) ((i, t) ∷ rest))
      else ok ((i, t) ∷ rest)

  -- Mempool.add with the bound on the pool: whether the transaction is new, and the pool
  unfoldable pub add_within : ℕ → Transaction → PosChain → Pool → Result (Bool × Pool)
  unfolding make_room
  add_within size tx c pool = do
    raise_if (not (is_valid tx)) invalid_tx
    raise_if (ltb (units tx.fee) min_fee) fee_below_floor
    raise_if (ltb (units tx.nonce) (get_or tx.sender 0 c.nonces)) nonce_spent
    if contains (txid tx) pool
        then ok (false, pool)
        else (make_room size tx pool >>= λ room. ok (true, put (txid tx) tx room))

  unfoldable pub add : Transaction → PosChain → Pool → Result (Bool × Pool)
  add tx c pool = add_within max_pool_size tx c pool

  -- Mempool.update
  unfoldable pub update : PosChain → Pool → Pool
  update c [] = []
  update c ((i, t) ∷ pool) =
      if leb (get_or t.sender 0 c.nonces) (units t.nonce) && is_valid t
      then (i, t) ∷ update c pool
      else update c pool

-- sender -> transactions
abbrev pub Queues : Type 0
Queues = Dict Text (List Transaction)

-- `by_sender.setdefault(tx.sender, []).append(tx)` over the pool
unfoldable pub by_sender : Pool → Queues → Queues
by_sender [] acc = acc
by_sender ((i, t) ∷ pool) acc = by_sender pool (put t.sender (get_or t.sender [] acc ++ t ∷ []) acc)

unfoldable pub insert_by_nonce : Transaction → List Transaction → List Transaction
insert_by_nonce t [] = t ∷ []
insert_by_nonce t (u ∷ us) =
    if ltb (units u.nonce) (units t.nonce) then u ∷ insert_by_nonce t us else t ∷ u ∷ us

-- `txs.sort(key=lambda t: t.nonce)`, which is stable
unfoldable pub sort_by_nonce : List Transaction → List Transaction
unfolding insert_by_nonce
sort_by_nonce [] = []
sort_by_nonce (t ∷ ts) = insert_by_nonce t (sort_by_nonce ts)

-- The contiguous, affordable run from the next nonce of a sender.
unfoldable pub ready_run : ℕ → ℕ → ℕ → List Transaction → List Transaction
unfolding cost
ready_run unbonding_blocks expected balance [] = []
ready_run unbonding_blocks expected balance (t ∷ ts) =
    let c = cost t unbonding_blocks in
    let rest = ready_run unbonding_blocks (expected + 1) (balance + c.back - c.out) ts in
    if not (eqb (units t.nonce) expected)
    then []
    else if ltb balance c.required
    then []
    else t ∷ rest

-- `if run: ready[sender] = run`
abbrev pub keep_run : Text → List Transaction → Queues → Queues
keep_run s [] ready = ready
keep_run s (t ∷ ts) ready = (s, t ∷ ts) ∷ ready

unfoldable pub ready : PosChain → Queues → Queues
unfolding sort_by_nonce ready_run
ready c [] = []
ready c ((s, ts) ∷ queues) =
    keep_run s
      (ready_run c.self.config.unbonding_blocks (get_or s 0 c.nonces) (get_or s 0 c.balances)
        (sort_by_nonce ts))
      (ready c queues)

-- The first sender whose head has the highest fee, with that head.
abbrev pub outbids : Transaction → Option (Text × Transaction) → Bool
outbids t none = true
outbids t (some (s, u)) = ltb (units u.fee) (units t.fee)

unfoldable pub best_head : Option (Text × Transaction) → Queues → Option (Text × Transaction)
best_head best [] = best
best_head best ((s, []) ∷ queues) = best_head best queues
best_head best ((s, t ∷ ts) ∷ queues) =
    best_head (if outbids t best then some (s, t) else best) queues

-- `heads[sender] += 1`: a queue here is what its sender has left.
unfoldable pub advance : Text → Queues → Queues
advance a [] = []
advance a ((s, []) ∷ queues) = (s, []) ∷ advance a queues
advance a ((s, t ∷ ts) ∷ queues) =
    if a == s then (s, ts) ∷ queues else (s, t ∷ ts) ∷ advance a queues

-- The merge, `max_count` rounds at most.
unfoldable pub merge : ℕ → Queues → List Transaction
unfolding best_head advance
merge zero queues = []
merge (suc n) queues = elim (best_head none queues) [
  | none ↦ []
  | some (s, t) ↦ t ∷ merge n (advance s queues)
]

-- Mempool.select
unfoldable pub select : PosChain → ℕ → Pool → List Transaction
unfolding by_sender ready merge
select c max_count pool = merge max_count (ready c (by_sender pool []))
