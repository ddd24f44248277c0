-- ===== src/Consensus/Refinement.antt =====
-- The ledger refines the accounts: what addresses hold follows the list of settled transactions.
use mindees_blockchain.Prelude.{
  ℕ, ◌+◌, ◌≡◌, ◌≢◌, refl, List, [], ◌∷◌, Text, Text_eq, text_eq_iff, arith, ap, ◌∙◌,
}
use mathlib.Core.Path.{fun_ext}
use mindees_blockchain.Dict.{IsUnique, get_or, add}
use mindees_blockchain.Json.{units}
use mindees_blockchain.Primitives.{Primitives}
use mindees_blockchain.Core.Transaction.{Transaction, slash_sentinel, txid}
use mindees_blockchain.Core.Block.{Block}
use mindees_blockchain.Core.Chain.{transfer, apply_txs, begin}
use mindees_blockchain.Core.Chain.Steps.{apply_txs-Round, Accepted, submit_block-Accepted}
use mindees_blockchain.Consensus.State.{Config, PosWork, PosChain, Staking, bonded_in}
use mindees_blockchain.Consensus.Stake.{apply_stake, apply_unstake, holding}
use mindees_blockchain.Consensus.Vote.{apply_vote}
use mindees_blockchain.Consensus.Rules.{
  apply_tx, vest, apply_block_pre, snapshot_checkpoint, pos_hooks, submit,
}
use mindees_blockchain.Consensus.Supply.Transactions.{check_vote_funds}
use mindees_blockchain.Consensus.Accounts.{Accounts, move, settle, settle_all}
use mindees_blockchain.Consensus.Holdings.{
  Holds, transfer-holding, apply_stake-holding, apply_unstake-holding, cast_vote-holding,
}
use mindees_blockchain.Consensus.Maturing.{mature-holding}
use mindees_blockchain.Consensus.Validators.{ValidStakes}
use mindees_blockchain.Consensus.Liveness.{
  NoSlash, apply_tx-ValidStakes, begin-stakes, submit-ValidStakes,
}
use mindees_blockchain.Consensus.Keyed.{HasOneQueue, submit-HasOneQueue}
use mindees_blockchain.Result.{Result, ok, err, ◌>>=◌}

ValidStakes-IsUnique : (w : PosWork) → ValidStakes w.aux.stakes → IsUnique w.aux.stakes
unfolding ValidStakes
ValidStakes-IsUnique w h = h.0

module _ ⦃p : Primitives⦄ (cfg : Config) (tx : Transaction) (block : Block) (w : PosWork)
    (a : Text) where
  vest-Holds : (n : ℕ) (r : Result PosWork) → Holds a n r → Holds a n (r >>= vest cfg tx block)
  vest-Holds n (err e) h = tt
  vest-Holds n (ok w') h = ground arith

  apply_vote-holding :
      Holds a
        (move tx.sender block.validator (units tx.fee) (λ b. holding b w) a)
        (apply_vote cfg tx block w)
  unfolding apply_vote
  apply_vote-holding = grind (arith, check_vote_funds, cast_vote-holding cfg tx block w a)

  apply_tx-holding :
      tx.recipient ≢ slash_sentinel
      → ValidStakes w.aux.stakes
      → Holds a (settle block.validator tx (λ b. holding b w) a) (apply_tx cfg tx block w)
  unfolding apply_tx settle
  apply_tx-holding plain h =
      let fee_only = move tx.sender block.validator (units tx.fee) (λ b. holding b w) a in
      ground (
        arith,
        text_eq_iff tx.recipient slash_sentinel,
        vest-Holds fee_only (apply_stake tx block w) (apply_stake-holding tx block w a),
        vest-Holds fee_only (apply_unstake cfg tx block w)
            (apply_unstake-holding cfg tx block w a (ValidStakes-IsUnique w h)),
        apply_vote-holding,
        vest-Holds _ (transfer tx block w) (transfer-holding tx block w a),
      )

pub settle_all-cong :
    (proposer : Text) (txs : List Transaction) {f g : Accounts}
    → ((a : Text) → f a ≡ g a)
    → (a : Text) → settle_all proposer txs f a ≡ settle_all proposer txs g a
settle_all-cong proposer txs h a = ap (λ acc. settle_all proposer txs acc a) (fun_ext h)

module _ ⦃p : Primitives⦄ where
  apply_txs-holding :
      (self : Staking) (block : Block) (seen : List Text) (txs : List Transaction) (w : PosWork)
      {w' : PosWork}
      → apply_txs pos_hooks self block seen txs w ≡ ok w'
      → NoSlash txs
      → ValidStakes w.aux.stakes
      → (a : Text) → holding a w' ≡ settle_all block.validator txs (λ b. holding b w) a
  unfolding apply_txs settle_all
  apply_txs-holding self block seen [] w run plain h a = ground arith
  apply_txs-holding self block seen (tx ∷ txs) w run plain h a =
      let r = apply_txs-Round pos_hooks self block seen tx txs w run in
      apply_txs-holding self block (add (txid tx) seen) txs r.middle r.rest plain.1
        (ground (arith, r.applied, apply_tx-ValidStakes self.config tx block w r.valid h)) a
      ∙ settle_all-cong block.validator txs
          (λ b. ground (arith, r.applied, apply_tx-holding self.config tx block w b plain.0 h)) a

-- What an address holds on a chain.
unfoldable pub held : PosChain → Accounts
unfolding bonded_in
held c a =
    get_or a 0 c.balances
    + get_or a 0 c.self.state.stakes
    + bonded_in (get_or a [] c.self.state.unbonding)

held-Accepted :
    ⦃p : Primitives⦄ (c : PosChain) (block : Block) {c' : PosChain}
    (accepted : Accepted pos_hooks c block c')
    → (a : Text) → held c' a ≡ holding a accepted.work
unfolding held holding
held-Accepted c block accepted a = rw accepted.result refl

module _ ⦃p : Primitives⦄ (c : PosChain) (block : Block) where
  begin-holding :
      HasOneQueue c.self.state.unbonding
      → (a : Text) → holding a (begin pos_hooks c block) ≡ held c a
  unfolding begin apply_block_pre snapshot_checkpoint HasOneQueue held holding
  begin-holding h a =
      ground (arith, mature-holding block.index a c.self.state.unbonding c.balances h)

  -- If the stakes of a chain are well formed and each address has one unbonding queue, a block
  -- without a slash that is accepted keeps that, and what each address holds after it, liquid,
  -- staked and unbonding together, is what the payments and fees of its transactions, one after
  -- another, make of the holdings before it. Stakes, exits, votes and maturing queues change no
  -- holding.
  pub submit_refines_accounts :
      {c' : PosChain}
      → ValidStakes c.self.state.stakes
      → HasOneQueue c.self.state.unbonding
      → NoSlash block.transactions
      → submit c block ≡ ok c'
      → ((a : Text) → held c' a ≡ settle_all block.validator block.transactions (held c) a)
        × ValidStakes c'.self.state.stakes
        × HasOneQueue c'.self.state.unbonding
  unfolding submit
  submit_refines_accounts {c'} stakes queues plain run =
      let accepted = submit_block-Accepted pos_hooks c block run in
      (
        λ a.
            held-Accepted c block accepted a
            ∙ apply_txs-holding c.self block [] block.transactions (begin pos_hooks c block)
                accepted.run plain (rw (begin-stakes c block) stakes) a
            ∙ settle_all-cong block.validator block.transactions (begin-holding queues) a,
        submit-ValidStakes c block run stakes,
        submit-HasOneQueue c block run queues,
      )
