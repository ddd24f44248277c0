-- ===== src/Consensus/Finality/Chains.antt =====
-- The records of finality along the blocks that ProofOfStakeChain.submit_block accepts.
use mindees_blockchain.Prelude.{
  ℕ, ◌≡◌, false, some, List, [], ◌∷◌, Text, Text_eq, ℕ_eq, pair_eq, arith, refl, subst, sym, ap,
  ◌∙◌, text_eq_iff,
}
use mindees_blockchain.Dict.{Dict, get, get_or, contains, put, member, add, get-put, get→contains}
use mindees_blockchain.Primitives.{Primitives}
use mindees_blockchain.Core.Transaction.{Transaction, txid}
use mindees_blockchain.Core.Block.{Block, hash}
use mindees_blockchain.Core.Chain.{Balances, apply_txs, begin}
use mindees_blockchain.Core.Chain.Steps.{apply_txs-Round, submit_block-Accepted}
use mindees_blockchain.Consensus.State.{Aux, Config, PosWork, PosChain, Staking}
use mindees_blockchain.Consensus.Genesis.{GenesisArgs, init, genesis_state}
use mindees_blockchain.Consensus.Rules.{
  apply_block_pre, snapshot_checkpoint, pos_hooks, submit, mature, snapshot_aux,
}
use mindees_blockchain.Consensus.Maturing.{BondQueues}
use mindees_blockchain.Consensus.Finality.Records.{Ffg, ffg, Extends, IsBacked, IsBacked-more}
use mindees_blockchain.Consensus.Finality.Records
use mindees_blockchain.Result.{ok, Returns}
use mindees_blockchain.Consensus.Finality.Transactions.{AreBacked, apply_tx-BackedKept}

module _ ⦃p : Primitives⦄ where
  apply_txs-AreBacked :
      (self : Staking) (block : Block) (seen : List Text) (txs : List Transaction) (w : PosWork)
      {w' : PosWork}
      → apply_txs pos_hooks self block seen txs w ≡ ok w'
      → AreBacked self.config.epoch (ffg w.aux)
      → AreBacked self.config.epoch (ffg w'.aux)
  unfolding apply_txs
  apply_txs-AreBacked self block seen [] w run h = ground arith
  apply_txs-AreBacked self block seen (tx ∷ txs) w run h =
      let r = apply_txs-Round pos_hooks self block seen tx txs w run in
      apply_txs-AreBacked self block (add (txid tx) seen) txs r.middle r.rest
        (ground (arith, r.applied, apply_tx-BackedKept self.config tx block w h))

get-put_new {ℓ} :
    {V : Type ℓ} (h j : Text) (v u : V) (d : Dict Text V)
    → contains j d ≡ false
    → get h d ≡ some u
    → get h (put j v d) ≡ some u
get-put_new h j v u d new e = ground (arith, get-put h j v d, get→contains h u d, text_eq_iff h j)

-- A committed state keeps no sources for the votes of a block.
closed-AreBacked :
    (epoch : ℕ) (aux : Aux)
    → AreBacked epoch (ffg aux)
    → AreBacked epoch (ffg (record aux { justified_parent = [] }))
unfolding AreBacked member
closed-AreBacked epoch aux b =
    IsBacked-more (ffg aux) (ffg (record aux { justified_parent = [] })) epoch
      (record { stake = λ h s e. e; height = λ h k e. e; seen = λ v k m e. e; excluded = λ v e. e })
      refl refl refl (λ h m. cc) b

genesis_state-AreBacked :
    (epoch : ℕ) (h : Text) (stakes : Balances) → AreBacked epoch (ffg (genesis_state h stakes))
unfolding AreBacked member get get_or
genesis_state-AreBacked epoch h stakes = record {
  justified = λ x m. (0, Records.root x (ground arith));
  parent = λ x m. cc;
  final = Records.genesis h;
  distinct = λ l. tt;
  votes = λ s t v m. absurd (ground arith);
}

module _ ⦃p : Primitives⦄ where
  -- No checkpoint has the hash of the block yet.
  abbrev pub IsNew : Block → Aux → Type 0
  IsNew block aux =
      (contains (hash block) aux.ffg_stake ≡ false) × (contains (hash block) aux.ffg_height ≡ false)

  snapshot-Extends :
      (epoch : ℕ) (block : Block) (aux : Aux)
      → IsNew block aux
      → Extends (ffg aux) (ffg (snapshot_checkpoint epoch block aux))
  unfolding snapshot_checkpoint
  snapshot-Extends epoch block aux (new_stake, new_height) = record {
    stake =
        λ h s e. ground (arith, get-put_new h (hash block) aux.stakes s aux.ffg_stake new_stake e);
    height = λ h k e.
        ground (arith, get-put_new h (hash block) block.index k aux.ffg_height new_height e);
    seen = λ v k m e. ground arith;
    excluded = λ v e. ground arith;
  }

  begun-IsBacked :
      (epoch : ℕ) (block : Block) (queues : BondQueues) (aux : Aux)
      → IsNew block aux
      → IsBacked (ffg aux) epoch
      → IsBacked
          (ffg (
            snapshot_checkpoint epoch block
              (record aux { unbonding = queues; justified_parent = aux.justified })))
          epoch
  unfolding snapshot_checkpoint
  begun-IsBacked epoch block queues aux new b =
      let opened : Aux = record aux { unbonding = queues; justified_parent = aux.justified } in
      let e = snapshot-Extends epoch block opened new in
      IsBacked-more (ffg aux) (ffg (snapshot_checkpoint epoch block opened)) epoch
        (record { stake = e.stake; height = e.height; seen = e.seen; excluded = e.excluded })
        (ground arith) (ground arith) (ground arith) (λ h m. ground (arith, m)) b

  begin-AreBacked :
      (c : PosChain) (block : Block)
      → IsNew block c.self.state
      → AreBacked c.self.config.epoch (ffg c.self.state)
      → AreBacked c.self.config.epoch (ffg (begin pos_hooks c block).aux)
  unfolding begin apply_block_pre AreBacked
  begin-AreBacked c block new b =
      begun-IsBacked c.self.config.epoch block
        (mature block.index c.self.state.unbonding c.balances).0 (snapshot_aux c.self) new
        (closed-AreBacked c.self.config.epoch c.self.state b)

  -- A block whose hash is no checkpoint yet.
  submit-AreBacked :
      (c : PosChain) (block : Block) {c' : PosChain}
      → IsNew block c.self.state
      → submit c block ≡ ok c'
      → AreBacked c.self.config.epoch (ffg c.self.state)
      → (c'.self.config ≡ c.self.config) × AreBacked c'.self.config.epoch (ffg c'.self.state)
  unfolding submit
  submit-AreBacked c block new run b =
      let a = submit_block-Accepted pos_hooks c block run in
      let work =
        apply_txs-AreBacked c.self block [] block.transactions (begin pos_hooks c block) a.run
          (begin-AreBacked c block new b) in
      rw a.result (refl, closed-AreBacked c.self.config.epoch a.work.aux work)

  -- Accepted blocks, none with the hash of an earlier checkpoint.
  pub data FreshRun (c : PosChain) : PosChain → Type 0 where
    started : FreshRun c c
    accepted :
        {d e : PosChain} (block : Block)
        → FreshRun c d
        → IsNew block d.self.state
        → submit d block ≡ ok e
        → FreshRun c e

  init_state :
      (g : GenesisArgs)
      → Returns
          (λ c.
            (c.self.config.epoch ≡ g.epoch)
            × (c.self.state ≡ genesis_state (hash c.head) c.self.state.stakes))
          (init g)
  unfolding init
  init_state g = ground arith

  run-AreBacked :
      {c d : PosChain}
      → AreBacked c.self.config.epoch (ffg c.self.state)
      → FreshRun c d
      → (d.self.config ≡ c.self.config) × AreBacked d.self.config.epoch (ffg d.self.state)
  run-AreBacked h started = (refl, h)
  run-AreBacked h (accepted {d} block run new taken) =
      let (same, b) = run-AreBacked h run in
      let (same', b') = submit-AreBacked d block new taken b in (same' ∙ same, b')

  -- After an accepted genesis and accepted blocks, none with the hash of a checkpoint before it, the
  -- records of finality are backed: each justified checkpoint is reached from one at height 0 by
  -- links between aligned heights, each with a supermajority of the stake frozen at its source, as
  -- counted without some excluded validators, whose votes are recorded; the finalized checkpoint is
  -- at height 0 or the source of such a link to its direct successor.
  pub FreshRun-IsBacked :
      (g : GenesisArgs) {c d : PosChain}
      → init g ≡ ok c
      → FreshRun c d
      → IsBacked (ffg d.self.state) g.epoch
  unfolding AreBacked
  FreshRun-IsBacked g {c} {d} start run =
      let (same, made) : (c.self.config.epoch ≡ g.epoch)
          × (c.self.state ≡ genesis_state (hash c.head) c.self.state.stakes) =
        rw start at (init_state g) in
      let b : AreBacked c.self.config.epoch (ffg c.self.state) =
        subst (λ (s : Aux). AreBacked c.self.config.epoch (ffg s)) (sym made)
          (genesis_state-AreBacked c.self.config.epoch (hash c.head) c.self.state.stakes) in
      let (kept, backed) = run-AreBacked b run in
      subst (λ n. IsBacked (ffg d.self.state) n) (ap (λ (k : Config). k.epoch) kept ∙ same) backed
