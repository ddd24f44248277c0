-- ===== src/Consensus/Finality/Justify.antt =====
-- The second half of ProofOfStakeChain._apply_vote: what a vote justifies and finalizes.
use mindees_blockchain.Prelude.{
  ℕ, ◌+◌, ◌≡◌, true, ◌&&◌, some, [], Text, Text_eq, ℕ_eq, pair_eq, arith, text_eq_iff, Bool-cases,
  subst, text_eq, eqb, ltb, inl, inr,
}
use mindees_blockchain.Dict.{get, get_or, member, add, member-add, contains→get}
use mindees_blockchain.Consensus.State.{Aux, Config}
use mindees_blockchain.Consensus.Evidence.{Link}
use mindees_blockchain.Consensus.Vote.{
  voted_stake, quorum_stake, is_supermajority, record_vote, justify, finalize,
}
use mindees_blockchain.Consensus.Finality.Records.{
  Ffg, ffg, Extends, Counted, Backed, Backed-height, Backed-Extends, Final, Final-Extends, IsBacked,
}
use mindees_blockchain.Consensus.Finality.Records
use mindees_blockchain.Consensus.Finality.Votes.{Passed, record_vote-IsBacked}

-- A link that has passed, once its vote is recorded and a supermajority has voted for it.
module _ (epoch : ℕ) (l : Link) (voter : Text) (aux : Aux) (p : Passed epoch l voter aux)
    (b : IsBacked (ffg (record_vote l voter aux)) epoch) where
  Backed-source : Backed (ffg (record_vote l voter aux)) epoch l.s l.sh
  unfolding record_vote
  Backed-source =
      let (k, c) = b.justified l.s (b.parent l.s p.justified) in
      subst (λ n. Backed (ffg (record_vote l voter aux)) epoch l.s n)
        (cc (Backed-height (ffg (record_vote l voter aux)) epoch l.s k c, p.source)) c

  recorded :
      (v : Text)
      → member v (get_or (l.s, l.t) [] (record_vote l voter aux).ffg_votes) ≡ true
      → get (v, l.th) (record_vote l voter aux).ffg_seen_target ≡ some (l.s, l.t)
  unfolding record_vote
  recorded v m =
      let (k, height, seen) = b.votes l.s l.t v m in
      subst (λ n. get (v, n) (record_vote l voter aux).ffg_seen_target ≡ some (l.s, l.t))
        (cc (height, p.target)) seen

  counted :
      is_supermajority
          (voted_stake
            (get_or l.s [] (record_vote l voter aux).ffg_stake)
            (record_vote l voter aux).slashed_addrs
            (get_or (l.s, l.t) [] (record_vote l voter aux).ffg_votes))
          (quorum_stake
            (record_vote l voter aux).slashed_addrs
            (get_or l.s [] (record_vote l voter aux).ffg_stake))
        ≡ true
      → Counted (ffg (record_vote l voter aux)) epoch l
  unfolding record_vote
  counted wins = record {
    voters = get_or (l.s, l.t) [] (record_vote l voter aux).ffg_votes;
    snapshot = get_or l.s [] aux.ffg_stake;
    without = aux.slashed_addrs;
    frozen = contains→get l.s [] aux.ffg_stake p.known;
    source = p.source;
    target = p.target;
    ordered = p.ordered;
    source_aligned = p.source_aligned;
    target_aligned = p.target_aligned;
    distinct = b.distinct (l.s, l.t);
    voted = recorded;
    slashed = λ v m. m;
    wins = wins;
  }

finalize-Final :
    (x : Ffg) (epoch : ℕ) (l : Link) (f : Text × ℕ)
    → Backed x epoch l.s l.sh
    → Counted x epoch l
    → Final x epoch f
    → Final x epoch (finalize epoch l f)
unfolding finalize
finalize-Final x epoch l f b c old = elim (Bool-cases (eqb l.th (l.sh + epoch) && ltb f.1 l.sh)) [
  | inl e ↦ rw e (Records.by_link l b c (ground arith))
  | inr e ↦ rw e old
]

-- The records once the link is justified.
abbrev justify_link : ℕ → Link → Aux → Aux
justify_link epoch l aux = record aux {
  justified = add l.t aux.justified;
  finalized = finalize epoch l aux.finalized;
}

Backed-add :
    (x : Ffg) (epoch : ℕ) (l : Link)
    → Counted x epoch l
    → Backed x epoch l.s l.sh
    → ((h : Text) → member h x.justified ≡ true → (k : ℕ) × Backed x epoch h k)
    → (h : Text) → member h (add l.t x.justified) ≡ true
    → (k : ℕ) × Backed x epoch h k
Backed-add x epoch l c b old h m = elim (Bool-cases (text_eq h l.t)) [
  | inl e ↦ (l.th, rw ((text_eq_iff h l.t).0 e) (Records.link l c b))
  | inr e ↦ old h (ground (arith, member-add h l.t x.justified))
]

justify_link-Extends :
    (epoch : ℕ) (l : Link) (aux : Aux) → Extends (ffg aux) (ffg (justify_link epoch l aux))
justify_link-Extends epoch l aux = record {
  stake = λ h s e. e;
  height = λ h k e. e;
  seen = λ v k m e. e;
  excluded = λ v e. e;
}

justify_link-IsBacked :
    (epoch : ℕ) (l : Link) (aux : Aux)
    → Counted (ffg aux) epoch l
    → Backed (ffg aux) epoch l.s l.sh
    → IsBacked (ffg aux) epoch
    → IsBacked (ffg (justify_link epoch l aux)) epoch
justify_link-IsBacked epoch l aux c s b =
    let e = justify_link-Extends epoch l aux in
    record {
      justified = λ h m.
          let (k, d) = Backed-add (ffg aux) epoch l c s b.justified h m in
          (k, Backed-Extends (ffg aux) _ epoch h k e d);
      parent = λ h m. rw (member-add h l.t aux.justified) (ground (arith, b.parent h m));
      final =
          Final-Extends (ffg aux) _ epoch _ e
            (finalize-Final (ffg aux) epoch l aux.finalized s c b.final);
      distinct = b.distinct;
      votes = b.votes;
    }

module _ (cfg : Config) (l : Link) (voter : Text) (aux : Aux)
    (p : Passed cfg.epoch l voter aux) where
  justify-IsBacked :
      IsBacked (ffg (record_vote l voter aux)) cfg.epoch
      → IsBacked (ffg (justify cfg l (record_vote l voter aux))) cfg.epoch
  unfolding justify
  justify-IsBacked b =
      let aux' = record_vote l voter aux in
      let counts = counted cfg.epoch l voter aux p b in
      let s = Backed-source cfg.epoch l voter aux p b in
      elim (Bool-cases (
        is_supermajority
          (voted_stake (get_or l.s [] aux'.ffg_stake) aux'.slashed_addrs
            (get_or (l.s, l.t) [] aux'.ffg_votes))
          (quorum_stake aux'.slashed_addrs (get_or l.s [] aux'.ffg_stake)))) [
            | inl e ↦ rw e (justify_link-IsBacked cfg.epoch l aux' (counts e) s b)
            | inr e ↦ rw e b
          ]

  pub vote-IsBacked :
      IsBacked (ffg aux) cfg.epoch
      → IsBacked (ffg (justify cfg l (record_vote l voter aux))) cfg.epoch
  vote-IsBacked b = justify-IsBacked (record_vote-IsBacked cfg.epoch l voter aux p b)
