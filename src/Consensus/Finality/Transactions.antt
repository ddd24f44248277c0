-- ===== src/Consensus/Finality/Transactions.antt =====
-- The records of finality under the kinds of transaction of ProofOfStakeChain._apply_tx.
use mindees_blockchain.Prelude.{ℕ, Text, Text_eq, ℕ_eq, pair_eq, arith, refl}
use mindees_blockchain.Dict.{add, member-add}
use mindees_blockchain.Primitives.{Primitives}
use mindees_blockchain.Core.Transaction.{Transaction}
use mindees_blockchain.Core.Block.{Block}
use mindees_blockchain.Core.Chain.{transfer}
use mindees_blockchain.Consensus.State.{Aux, Config, PosWork, Offense}
use mindees_blockchain.Consensus.Evidence.{Link}
use mindees_blockchain.Consensus.Stake.{apply_stake, apply_unstake, release_stake}
use mindees_blockchain.Consensus.Vote.{apply_vote, cast_vote}
use mindees_blockchain.Consensus.Slash.{apply_slash, settle_slash, confiscate}
use mindees_blockchain.Consensus.Rules.{apply_tx, vest}
use mindees_blockchain.Consensus.Finality.Records.{Ffg, ffg, Extends, IsBacked, IsBacked-more}
use mindees_blockchain.Consensus.Finality.Votes.{Passed, check_vote-Passed}
use mindees_blockchain.Consensus.Finality.Justify.{vote-IsBacked}
use mindees_blockchain.Result.{Result, ok, err, ◌>>=◌, Returns}

-- `IsBacked`, shut, so that the tactics carry it from step to step.
unfoldable pub AreBacked : ℕ → Ffg → Type 0
AreBacked epoch x = IsBacked x epoch

abbrev pub BackedKept : ℕ → PosWork → Result PosWork → Type 0
BackedKept epoch w r = AreBacked epoch (ffg w.aux) → Returns (λ w'. AreBacked epoch (ffg w'.aux)) r

module _ (cfg : Config) (tx : Transaction) (block : Block) (w : PosWork) where
  transfer-BackedKept : BackedKept cfg.epoch w (transfer tx block w)
  unfolding transfer
  transfer-BackedKept h = ground arith

  apply_stake-BackedKept : BackedKept cfg.epoch w (apply_stake tx block w)
  unfolding apply_stake
  apply_stake-BackedKept h = ground arith

  apply_unstake-BackedKept : BackedKept cfg.epoch w (apply_unstake cfg tx block w)
  unfolding apply_unstake release_stake
  apply_unstake-BackedKept h = ground arith

-- An exclusion more.
exclude-AreBacked :
    (epoch : ℕ) (a : Text) (aux : Aux)
    → AreBacked epoch (ffg aux)
    → AreBacked epoch (ffg (record aux { slashed_addrs = add a aux.slashed_addrs }))
unfolding AreBacked
exclude-AreBacked epoch a aux b =
    let e : Extends (ffg aux) (ffg (record aux { slashed_addrs = add a aux.slashed_addrs })) =
      record {
        stake = λ h s e. e;
        height = λ h k e. e;
        seen = λ v k m e. e;
        excluded = λ v m. ground (arith, member-add v a aux.slashed_addrs);
      } in
    IsBacked-more (ffg aux) _ epoch e refl refl refl b.parent b

settle_slash-BackedKept :
    (epoch : ℕ) (treasury : Text) (found : Text × Offense) (tx : Transaction) (block : Block)
    (w : PosWork)
    → BackedKept epoch w (settle_slash treasury found tx block w)
unfolding settle_slash confiscate
settle_slash-BackedKept epoch treasury (offender, key) tx block w h =
    ground (arith, exclude-AreBacked epoch offender w.aux h)

cast_vote-BackedKept :
    (cfg : Config) (l : Link) (tx : Transaction) (block : Block) (w : PosWork)
    → Passed cfg.epoch l tx.sender w.aux
    → BackedKept cfg.epoch w (cast_vote cfg l tx block w)
unfolding cast_vote AreBacked
cast_vote-BackedKept cfg l tx block w p h = ground (arith, vote-IsBacked cfg l tx.sender w.aux p h)

module _ ⦃p : Primitives⦄ (cfg : Config) (tx : Transaction) (block : Block) where
  vest-BackedKept :
      (w : PosWork) (r : Result PosWork)
      → BackedKept cfg.epoch w r
      → BackedKept cfg.epoch w (r >>= vest cfg tx block)
  vest-BackedKept w (err e) k h = tt
  vest-BackedKept w (ok w') k h = ground (arith, k h)

  apply_slash-BackedKept : (w : PosWork) → BackedKept cfg.epoch w (apply_slash cfg tx block w)
  unfolding apply_slash
  apply_slash-BackedKept w h = grind (arith, settle_slash-BackedKept)

  apply_vote-BackedKept : (w : PosWork) → BackedKept cfg.epoch w (apply_vote cfg tx block w)
  unfolding apply_vote
  apply_vote-BackedKept w h =
      grind (arith, cast_vote-BackedKept, λ (l : Link). check_vote-Passed cfg l tx w)

  pub apply_tx-BackedKept : (w : PosWork) → BackedKept cfg.epoch w (apply_tx cfg tx block w)
  unfolding apply_tx
  apply_tx-BackedKept w h = ground (
    arith,
    vest-BackedKept w (apply_stake tx block w) (apply_stake-BackedKept cfg tx block w) h,
    vest-BackedKept w (apply_unstake cfg tx block w) (apply_unstake-BackedKept cfg tx block w) h,
    vest-BackedKept w (transfer tx block w) (transfer-BackedKept cfg tx block w) h,
    apply_slash-BackedKept w h,
    apply_vote-BackedKept w h,
  )
