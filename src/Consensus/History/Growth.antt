-- ===== src/Consensus/History/Growth.antt =====
-- The growth of the finality and slashing records under each kind of transaction.
use mindees_blockchain.Prelude.{
  ℕ, ◌+◌, ◌≤◌, ◌≡◌, true, some, Text, Text_eq, ℕ_eq, pair_eq, pair_beq_iff, arith, subst,
}
use mindees_blockchain.Dict.{get, get_or, put, member, member-add, get-put_same, credit}
use mindees_blockchain.Json.{units}
use mindees_blockchain.Core.Transaction.{Transaction}
use mindees_blockchain.Core.Block.{Block}
use mindees_blockchain.Core.Chain.{Balances, transfer}
use mindees_blockchain.Consensus.State.{Aux, Config, PosWork, Offense, Offense_eq, debit}
use mindees_blockchain.Consensus.Evidence.{Link}
use mindees_blockchain.Consensus.Stake.{apply_stake, apply_unstake, release_stake}
use mindees_blockchain.Consensus.Vote.{cast_vote, check_vote, justify, record_vote, finalize}
use mindees_blockchain.Consensus.Slash.{confiscate}
use mindees_blockchain.Result.{Error, Result, ok, err, ◌>>=◌, Returns}

-- The records of `b` extend those of `a`.
pub record Grows (a b : Aux) : Type 0 where
  pub slashed : (k : Offense) → member k a.slashed ≡ true → member k b.slashed ≡ true
  pub excluded : (v : Text) → member v a.slashed_addrs ≡ true → member v b.slashed_addrs ≡ true
  pub justified : (h : Text) → member h a.justified ≡ true → member h b.justified ≡ true
  pub final : a.finalized.1 ≤ b.finalized.1
  pub votes :
      (v : Text) (th : ℕ) (l : Text × Text)
      → get (v, th) a.ffg_seen_target ≡ some l
      → get (v, th) b.ffg_seen_target ≡ some l

pub Grows-refl : (a : Aux) → Grows a a
Grows-refl a = record {
  slashed = λ k h. h;
  excluded = λ v h. h;
  justified = λ c h. h;
  final = omega arith;
  votes = λ v th l h. h;
}

pub Grows-trans : (a b c : Aux) → Grows a b → Grows b c → Grows a c
Grows-trans a b c g h = record {
  slashed = λ k m. h.slashed k (g.slashed k m);
  excluded = λ v m. h.excluded v (g.excluded v m);
  justified = λ x m. h.justified x (g.justified x m);
  final = omega (arith, g.final, h.final);
  votes = λ v th l m. h.votes v th l (g.votes v th l m);
}

-- A step that leaves the five records alone.
abbrev pub SameRecords : Aux → Aux → Type 0
SameRecords a b =
    (b.slashed ≡ a.slashed)
    × (b.slashed_addrs ≡ a.slashed_addrs)
    × (b.justified ≡ a.justified)
    × (b.finalized ≡ a.finalized)
    × (b.ffg_seen_target ≡ a.ffg_seen_target)

pub SameRecords-Grows : (a b : Aux) → SameRecords a b → Grows a b
SameRecords-Grows a b (s, x, j, f, v) = record {
  slashed = λ k h. rw s h;
  excluded = λ k h. rw x h;
  justified = λ k h. rw j h;
  final = rw f (omega arith);
  votes = λ k th l h. rw v h;
}

pub record GrowsTo (w : PosWork) (r : Result PosWork) : Type 0 where
  pub at : (w' : PosWork) → r ≡ ok w' → Grows w.aux w'.aux

pub GrowsTo-err : (w : PosWork) (e : Error) → GrowsTo w (err e)
GrowsTo-err w e = record { at = λ w' h. cc }

pub GrowsTo-ok : (w w' : PosWork) → Grows w.aux w'.aux → GrowsTo w (ok w')
GrowsTo-ok w w' g = record { at = λ v h. subst (λ r. Grows w.aux r.aux) (ok-injective h) g }
  where
    ok-injective : {a b : PosWork} → ok a ≡ ok b → a ≡ b
    ok-injective e = cc

abbrev pub KeepsRecords : PosWork → Result PosWork → Type 0
KeepsRecords w r = Returns (λ w'. SameRecords w.aux w'.aux) r

pub keeps-GrowsTo : (w : PosWork) (r : Result PosWork) → KeepsRecords w r → GrowsTo w r
keeps-GrowsTo w (err e) h = GrowsTo-err w e
keeps-GrowsTo w (ok w') h = GrowsTo-ok w w' (SameRecords-Grows w.aux w'.aux h)

pub transfer_records :
    (tx : Transaction) (block : Block) (w : PosWork) → KeepsRecords w (transfer tx block w)
unfolding transfer
transfer_records tx block w = ground arith

pub apply_stake_records :
    (tx : Transaction) (block : Block) (w : PosWork) → KeepsRecords w (apply_stake tx block w)
unfolding apply_stake
apply_stake_records tx block w = ground arith

pub apply_unstake_records :
    (cfg : Config) (tx : Transaction) (block : Block) (w : PosWork)
    → KeepsRecords w (apply_unstake cfg tx block w)
unfolding apply_unstake release_stake
apply_unstake_records cfg tx block w = ground arith

pub confiscate-Grows :
    (reporter offender treasury : Text) (key : Offense) (w : PosWork)
    → Grows w.aux (confiscate reporter offender treasury key w).aux
unfolding confiscate
confiscate-Grows reporter offender treasury key w = record {
  slashed = λ k h. ground (arith, member-add k key w.aux.slashed);
  excluded = λ v h. ground (arith, member-add v offender w.aux.slashed_addrs);
  justified = λ k h. h;
  final = omega arith;
  votes = λ v th l h. h;
}

finalize_mono : (epoch : ℕ) (l : Link) (f : Text × ℕ) → f.1 ≤ (finalize epoch l f).1
unfolding finalize
finalize_mono epoch l f = ground arith

justify-Grows : (cfg : Config) (l : Link) (a : Aux) → Grows a (justify cfg l a)
unfolding justify
justify-Grows cfg l a = record {
  slashed = λ k h. ground arith;
  excluded = λ v h. ground arith;
  justified = λ k h. ground (arith, member-add k l.t a.justified);
  final = ground (arith, finalize_mono cfg.epoch l a.finalized);
  votes = λ v th x h. ground arith;
}

-- A vote that does not contradict a recorded one changes no recorded vote.
record_vote-Grows :
    (l : Link) (voter : Text) (a : Aux)
    → get_or (voter, l.th) (l.s, l.t) a.ffg_seen_target ≡ (l.s, l.t)
    → Grows a (record_vote l voter a)
unfolding record_vote
record_vote-Grows l voter a fits = record {
  slashed = λ k h. h;
  excluded = λ v h. h;
  justified = λ k h. h;
  final = omega arith;
  votes = λ v th x h. get-put_same (v, th) (voter, l.th) (l.s, l.t) x a.ffg_seen_target fits h;
}

module _ (cfg : Config) (tx : Transaction) (block : Block) (w : PosWork) where
  pub check_vote_fits :
      (l : Link)
      → Returns
          (λ _. get_or (tx.sender, l.th) (l.s, l.t) w.aux.ffg_seen_target ≡ (l.s, l.t))
          (check_vote cfg l tx w)
  unfolding check_vote
  check_vote_fits l =
      ground
        (arith, pair_beq_iff (get_or (tx.sender, l.th) (l.s, l.t) w.aux.ffg_seen_target) (l.s, l.t))

  pub cast_vote-Grows :
      (l : Link)
      → get_or (tx.sender, l.th) (l.s, l.t) w.aux.ffg_seen_target ≡ (l.s, l.t)
      → GrowsTo w (cast_vote cfg l tx block w)
  unfolding cast_vote
  cast_vote-Grows l fits = go (debit tx.sender (units tx.fee) w.balances)
    where
      voted : Aux
      voted = record_vote l tx.sender w.aux

      grown : Grows w.aux (justify cfg l voted)
      grown =
          Grows-trans w.aux voted (justify cfg l voted) (record_vote-Grows l tx.sender w.aux fits)
            (justify-Grows cfg l voted)

      go :
          (r : Result Balances)
          → GrowsTo w (
              r >>= λ paid. ok (record {
                balances = credit block.validator (units tx.fee) paid;
                nonces = put tx.sender (units tx.nonce + 1) w.nonces;
                aux = justify cfg l (record_vote l tx.sender w.aux);
              }))
      go (err e) = GrowsTo-err w e
      go (ok paid) = GrowsTo-ok w _ grown
