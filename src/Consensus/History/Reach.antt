-- ===== src/Consensus/History/Reach.antt =====
-- The records grow with every transaction, every block, and so along every chain.
use mindees_blockchain.Prelude.{
  ℕ, pair_eq, ℕ_eq, ◌≤◌, ◌≡◌, refl, true, false, Bool, List, [], ◌∷◌, Text, Text_eq, arith, not,
  if◌then◌else◌, ltb, subst, sym, ◌∙◌, All,
}
use mindees_blockchain.Dict.{get, member, add, get_or, credit, All-of_member, All-of_found}
use mindees_blockchain.Json.{truthy, units}
use mindees_blockchain.Primitives.{Primitives}
use mindees_blockchain.Core.Transaction.{Transaction, txid}
use mindees_blockchain.Core.Block.{Block}
use mindees_blockchain.Core.Chain.{transfer, apply_txs, begin}
use mindees_blockchain.Core.Chain.Steps.{apply_txs-Round, submit_block-Accepted}
use mindees_blockchain.Consensus.State.{
  Config, Staking, PosChain, PosWork, Offense, Offense_eq, debit,
}
use mindees_blockchain.Consensus.Evidence.{load_json}
use mindees_blockchain.Consensus.Stake.{apply_stake, apply_unstake, enforce_vesting}
use mindees_blockchain.Consensus.Vote.{apply_vote, check_vote, vote_link}
use mindees_blockchain.Consensus.Slash.{apply_slash, settle_slash, read_offense}
use mindees_blockchain.Consensus.Rules.{
  apply_tx, apply_block_pre, snapshot_checkpoint, vest, pos_hooks, submit,
}
use mindees_blockchain.Consensus.Reach.{Reach, Reach-keeps}
use mindees_blockchain.Consensus.History.Growth.{
  Grows, Grows-refl, Grows-trans, SameRecords-Grows, GrowsTo, GrowsTo-err, GrowsTo-ok,
  keeps-GrowsTo, transfer_records, apply_stake_records, apply_unstake_records, confiscate-Grows,
  check_vote_fits, cast_vote-Grows,
}
use mindees_blockchain.Result.{
  Result, ok, err, invalid, ◌>>=◌, raise_if, or_raise, already_slashed, insufficient_funds,
  no_evidence, no_treasury,
}

bind-GrowsTo :
    {A : Type 0} (w : PosWork) (m : Result A) (f : A → Result PosWork)
    → ((a : A) → m ≡ ok a → GrowsTo w (f a))
    → GrowsTo w (m >>= f)
bind-GrowsTo w (err e) f h = GrowsTo-err w e
bind-GrowsTo w (ok a) f h = h a refl

settle_slash-Grows :
    (treasury : Text) (found : Text × Offense) (tx : Transaction) (block : Block) (w : PosWork)
    → GrowsTo w (settle_slash treasury found tx block w)
unfolding settle_slash
settle_slash-Grows treasury (offender, key) tx block w =
    bind-GrowsTo w (raise_if (member key w.aux.slashed) already_slashed) _ λ _ _.
      bind-GrowsTo w
        (raise_if (ltb (get_or tx.sender 0 w.balances) (units tx.fee)) insufficient_funds) _
        λ _ _. bind-GrowsTo w (debit tx.sender (units tx.fee) w.balances) _ λ paid _.
          GrowsTo-ok w _ (
            confiscate-Grows tx.sender offender treasury key
              (record w { balances = credit block.validator (units tx.fee) paid }))

module _ ⦃p : Primitives⦄ (cfg : Config) (tx : Transaction) (block : Block) (w : PosWork) where
  apply_vote-Grows : GrowsTo w (apply_vote cfg tx block w)
  unfolding apply_vote
  apply_vote-Grows = bind-GrowsTo w (load_json tx.evidence) _ λ d _.
      bind-GrowsTo w (vote_link d) _ λ l _. bind-GrowsTo w (check_vote cfg l tx w) _ λ u passed.
        cast_vote-Grows cfg tx block w l (ground (arith, passed, check_vote_fits cfg tx block w l))

  apply_slash-Grows : GrowsTo w (apply_slash cfg tx block w)
  unfolding apply_slash
  apply_slash-Grows = bind-GrowsTo w (raise_if (not (truthy tx.evidence)) no_evidence) _ λ _ _.
      bind-GrowsTo w (or_raise cfg.treasury_address (invalid no_treasury)) _ λ treasury _.
        bind-GrowsTo w (load_json tx.evidence) _ λ d _.
          bind-GrowsTo w (read_offense d) _ λ found _. settle_slash-Grows treasury found tx block w

  vest-Grows : (r : Result PosWork) → GrowsTo w r → GrowsTo w (r >>= vest cfg tx block)
  vest-Grows (err e) h = GrowsTo-err w e
  vest-Grows (ok w') h = bind-GrowsTo w (enforce_vesting cfg tx.sender block.index w') _ λ _ _. h

  if-GrowsTo :
      (b : Bool) (r s : Result PosWork) → GrowsTo w r → GrowsTo w s → GrowsTo w (if b then r else s)
  if-GrowsTo true r s g h = g
  if-GrowsTo false r s g h = h

  apply_tx-Grows : GrowsTo w (apply_tx cfg tx block w)
  unfolding apply_tx
  apply_tx-Grows =
      let staked = keeps-GrowsTo w (apply_stake tx block w) (apply_stake_records tx block w) in
      let unstaked =
        keeps-GrowsTo w (apply_unstake cfg tx block w) (apply_unstake_records cfg tx block w) in
      let paid = keeps-GrowsTo w (transfer tx block w) (transfer_records tx block w) in
      if-GrowsTo _ _ _ (vest-Grows _ staked) (
        if-GrowsTo _ _ _ (vest-Grows _ unstaked) (
          if-GrowsTo _ _ _ apply_slash-Grows
            (if-GrowsTo _ _ _ apply_vote-Grows (vest-Grows _ paid))))

module _ ⦃p : Primitives⦄ where
  apply_txs-Grows :
      (s : Staking) (block : Block) (seen : List Text) (txs : List Transaction) (w : PosWork)
      {w' : PosWork}
      → apply_txs pos_hooks s block seen txs w ≡ ok w'
      → Grows w.aux w'.aux
  unfolding apply_txs
  apply_txs-Grows s block seen [] w h = (GrowsTo-ok w w (Grows-refl w.aux)).at _ h
  apply_txs-Grows s block seen (tx ∷ txs) w {w'} h =
      let r = apply_txs-Round pos_hooks s block seen tx txs w h in
      Grows-trans w.aux r.middle.aux w'.aux
        ((apply_tx-Grows s.config tx block w).at r.middle r.applied)
        (apply_txs-Grows s block (add (txid tx) seen) txs r.middle r.rest)

  begin-Grows : (c : PosChain) (block : Block) → Grows c.self.state (begin pos_hooks c block).aux
  unfolding begin apply_block_pre snapshot_checkpoint
  begin-Grows c block = SameRecords-Grows c.self.state (begin pos_hooks c block).aux (ground arith)

  submit-Grows :
      (c c' : PosChain) (block : Block) → submit c block ≡ ok c' → Grows c.self.state c'.self.state
  unfolding submit
  submit-Grows c c' block h =
      let a = submit_block-Accepted pos_hooks c block h in
      let run =
        apply_txs-Grows c.self block [] block.transactions (begin pos_hooks c block) a.run in
      let before =
        Grows-trans c.self.state (begin pos_hooks c block).aux a.work.aux (begin-Grows c block)
          run in
      subst (λ (d : PosChain). Grows c.self.state d.self.state) (sym a.result)
        (Grows-trans c.self.state a.work.aux (record (a.work.aux) { justified_parent = [] }) before
          (SameRecords-Grows a.work.aux _ (refl, refl, refl, refl, refl)))

  pub Reach-Grows : {c d : PosChain} → Reach c d → Grows c.self.state d.self.state
  Reach-Grows {c} r =
      Reach-keeps (λ d. Grows c.self.state d.self.state)
        (λ d e block s g.
          Grows-trans c.self.state d.self.state e.self.state g (submit-Grows d e block s))
        r (Grows-refl c.self.state)

  -- Along every chain, each slash recorded so far stays recorded, each excluded validator stays
  -- excluded, each justified checkpoint stays justified, each vote recorded for a validator and a
  -- target height stays the one recorded for them, and the height of the finalized checkpoint never
  -- falls.
  pub Reach-keeps_records :
      {c d : PosChain}
      → Reach c d
      → All (λ k. member k d.self.state.slashed ≡ true) c.self.state.slashed
        × All (λ v. member v d.self.state.slashed_addrs ≡ true) c.self.state.slashed_addrs
        × All (λ h. member h d.self.state.justified ≡ true) c.self.state.justified
        × All
            (λ (e : (Text × ℕ) × (Text × Text)).
              get e.0 d.self.state.ffg_seen_target ≡ get e.0 c.self.state.ffg_seen_target)
            c.self.state.ffg_seen_target
        × (c.self.state.finalized.1 ≤ d.self.state.finalized.1)
  Reach-keeps_records {c} {d} r =
      let g = Reach-Grows r in
      (
        All-of_member _ c.self.state.slashed g.slashed,
        All-of_member _ c.self.state.slashed_addrs g.excluded,
        All-of_member _ c.self.state.justified g.justified,
        All-of_found (λ e. get e d.self.state.ffg_seen_target ≡ get e c.self.state.ffg_seen_target)
            c.self.state.ffg_seen_target (λ k l h. g.votes k.0 k.1 l h ∙ sym h),
        g.final,
      )

  -- An offense that a chain has slashed is not slashed again: at any point of any later block, a
  -- slash for the same offense is refused.
  pub slashed_once :
      (c : PosChain) (block : Block) (seen : List Text) (txs : List Transaction) (treasury : Text)
      (offender : Text) (key : Offense) (tx : Transaction) {d : PosChain} {w : PosWork}
      → member key c.self.state.slashed ≡ true
      → Reach c d
      → apply_txs pos_hooks d.self block seen txs (begin pos_hooks d block) ≡ ok w
      → settle_slash treasury (offender, key) tx block w ≡ err (invalid already_slashed)
  unfolding settle_slash
  slashed_once c block seen txs treasury offender key tx {d} {w} m r run =
      let before = (Reach-Grows r).slashed key m in
      let started = (begin-Grows d block).slashed key before in
      let now =
        (apply_txs-Grows d.self block seen txs (begin pos_hooks d block) run).slashed key started in
      rw now
