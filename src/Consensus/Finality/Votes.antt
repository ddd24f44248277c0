-- ===== src/Consensus/Finality/Votes.antt =====
-- The first half of ProofOfStakeChain._apply_vote: the tests of a vote, and its record.
use mindees_blockchain.Prelude.{
  ℕ, ◌%◌, ◌<◌, ◌≡◌, true, false, some, List, [], ◌∷◌, ◌++◌, Text, Text_eq, ℕ_eq, pair_eq,
  pair_beq_iff, arith, text_eq_iff, refl, Bool-cases, ◌⊎◌, ◌==◌, inl, inr,
}
use mindees_blockchain.Dict.{
  get, get_or, contains, member, add, get-put_same, get-put_self, member-add, member-append,
  get_or-put,
}
use mindees_blockchain.Core.Transaction.{Transaction}
use mindees_blockchain.Consensus.State.{Aux, Config, PosWork}
use mindees_blockchain.Consensus.Evidence.{Link}
use mindees_blockchain.Consensus.Vote.{check_vote, record_vote}
use mindees_blockchain.Consensus.Quorum.{IsDistinct}
use mindees_blockchain.Consensus.Finality.Records.{
  ffg, Extends, Backed-Extends, Final-Extends, IsBacked,
}
use mindees_blockchain.Result.{Returns}

-- What the tests of a vote have established.
pub record Passed (epoch : ℕ) (l : Link) (voter : Text) (aux : Aux) : Type 0 where
  pub source_aligned : l.sh % epoch ≡ 0
  pub target_aligned : l.th % epoch ≡ 0
  pub ordered : l.sh < l.th
  pub known : contains l.s aux.ffg_stake ≡ true
  pub source : get l.s aux.ffg_height ≡ some l.sh
  pub target : get l.t aux.ffg_height ≡ some l.th
  pub justified : member l.s aux.justified_parent ≡ true
  pub fits : get_or (voter, l.th) (l.s, l.t) aux.ffg_seen_target ≡ (l.s, l.t)

pub check_vote-Passed :
    (cfg : Config) (l : Link) (tx : Transaction) (w : PosWork)
    → Returns (λ _. Passed cfg.epoch l tx.sender w.aux) (check_vote cfg l tx w)
unfolding check_vote
check_vote-Passed cfg l tx w =
    ground
      (arith, pair_beq_iff (get_or (tx.sender, l.th) (l.s, l.t) w.aux.ffg_seen_target) (l.s, l.t))

append-IsDistinct :
    (v : Text) (vs : List Text) → member v vs ≡ false → IsDistinct vs → IsDistinct (vs ++ v ∷ [])
unfolding member
append-IsDistinct v [] absent h = (refl, tt)
append-IsDistinct v (u ∷ us) absent h =
    ground
      (arith, text_eq_iff v u, text_eq_iff u v, member-append u v us, append-IsDistinct v us, h)

add-IsDistinct : (v : Text) (vs : List Text) → IsDistinct vs → IsDistinct (add v vs)
unfolding add
add-IsDistinct v vs h = elim (Bool-cases (member v vs)) [
  | inl old ↦ rw old h
  | inr new ↦ rw new (append-IsDistinct v vs new h)
]

module _ (epoch : ℕ) (l : Link) (voter : Text) (aux : Aux) (p : Passed epoch l voter aux) where
  record_vote-Extends : Extends (ffg aux) (ffg (record_vote l voter aux))
  unfolding record_vote
  record_vote-Extends = record {
    stake = λ h s e. e;
    height = λ h k e. e;
    seen = λ v k m e. get-put_same (v, k) (voter, l.th) (l.s, l.t) m aux.ffg_seen_target p.fits e;
    excluded = λ v e. e;
  }

-- A voter of a link after a vote: the new one, or one from before.
voter_cases :
    (l : Link) (voter s t v : Text) (aux : Aux)
    → member v (get_or (s, t) [] (record_vote l voter aux).ffg_votes) ≡ true
    → ((s ≡ l.s) × (t ≡ l.t) × (v ≡ voter)) ⊎ (member v (get_or (s, t) [] aux.ffg_votes) ≡ true)
unfolding record_vote
voter_cases l voter s t v aux m = ground (
  arith,
  get_or-put (s, t) (l.s, l.t) (add voter (get_or (l.s, l.t) [] aux.ffg_votes)) [] aux.ffg_votes,
  pair_beq_iff (s, t) (l.s, l.t),
  member-add v voter (get_or (l.s, l.t) [] aux.ffg_votes),
  text_eq_iff v voter,
)

module _ (epoch : ℕ) (l : Link) (voter : Text) (aux : Aux) (p : Passed epoch l voter aux)
    (b : IsBacked (ffg aux) epoch) where
  record_vote_seen :
      (s t v : Text)
      → ((s ≡ l.s) × (t ≡ l.t) × (v ≡ voter)) ⊎ (member v (get_or (s, t) [] aux.ffg_votes) ≡ true)
      → (k : ℕ) × (get t aux.ffg_height ≡ some k)
        × (get (v, k) (record_vote l voter aux).ffg_seen_target ≡ some (s, t))
  unfolding record_vote
  record_vote_seen s t v (inl (es, et, ev)) = (
    l.th,
    rw et p.target,
    rw (es, et, ev) (get-put_self (voter, l.th) (l.s, l.t) aux.ffg_seen_target),
  )
  record_vote_seen s t v (inr m) =
      let (k, height, seen) = b.votes s t v m in
      (k, height, (record_vote-Extends epoch l voter aux p).seen v k (s, t) seen)

  record_vote-IsDistinct :
      (x : Text × Text) → IsDistinct (get_or x [] (record_vote l voter aux).ffg_votes)
  unfolding record_vote
  record_vote-IsDistinct x =
      let old = get_or (l.s, l.t) [] aux.ffg_votes in
      rw (get_or-put x (l.s, l.t) (add voter old) [] aux.ffg_votes)
        (elim (Bool-cases (x == (l.s, l.t))) [
          | inl e ↦ rw e (add-IsDistinct voter old (b.distinct (l.s, l.t)))
          | inr ne ↦ rw ne (b.distinct x)
        ])

  pub record_vote-IsBacked : IsBacked (ffg (record_vote l voter aux)) epoch
  unfolding record_vote
  record_vote-IsBacked =
      let e = record_vote-Extends epoch l voter aux p in
      record {
        justified =
            λ h m. let (k, c) = b.justified h m in (k, Backed-Extends (ffg aux) _ epoch h k e c);
        parent = b.parent;
        final = Final-Extends (ffg aux) _ epoch aux.finalized e b.final;
        distinct = record_vote-IsDistinct;
        votes = λ s t v m. record_vote_seen s t v (voter_cases l voter s t v aux m);
      }
