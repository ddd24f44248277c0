-- ===== src/Consensus/Finality/Culprits.antt =====
-- Who is to blame for two conflicting finalized checkpoints: the voters of ProofOfStakeChain._apply_vote
-- and the faults of verify_vote_fault.
use mindees_blockchain.Prelude.{
  ℕ, ◌*◌, ◌<◌, ◌≤◌, ◌≡◌, true, ◌||◌, some, List, [], ◌∷◌, Text, Text_eq, ℕ_eq, pair_eq, arith,
  text_eq_iff, refl, All,
}
use mindees_blockchain.Dict.{IsUnique, get, member, All-of_member}
use mindees_blockchain.Core.Chain.{Balances}
use mindees_blockchain.Primitives.{Primitives}
use mindees_blockchain.Consensus.State.{PosChain}
use mindees_blockchain.Consensus.Genesis.{GenesisArgs, init}
use mindees_blockchain.Consensus.Validators.{ValidStakes}
use mindees_blockchain.Consensus.Liveness.{init-ValidStakes}
use mindees_blockchain.Consensus.Evidence.{Link, claim, is_double, is_surround}
use mindees_blockchain.Consensus.Vote.{voted_stake, quorum_stake, is_supermajority}
use mindees_blockchain.Consensus.Quorum.{
  IsDistinct, common, common_third, member-common, common-IsDistinct,
}
use mindees_blockchain.Consensus.Finality.Records.{Ffg, ffg, Counted}
use mindees_blockchain.Consensus.Finality.Chains.{FreshRun, FreshRun-IsBacked}
use mindees_blockchain.Consensus.Finality.Accountable.{Conflict, AreApart, finalized_Conflict}
use mindees_blockchain.Result.{ok}

-- Each checkpoint froze the same stakes, and nobody was excluded.
pub record IsStatic (x : Ffg) (stakes : Balances) : Type 0 where
  pub snapshots : (h : Text) (s : Balances) → get h x.stake ≡ some s → s ≡ stakes
  pub nobody : x.excluded ≡ []

-- Two links counted on their chains, with the heights of the checkpoints that they name, which are a
-- provable fault, and those who voted for both, each once.
pub record Exposed (x y : Ffg) (epoch : ℕ) (stakes : Balances) : Type 0 where
  pub one : Link
  pub other : Link
  pub counted_one : Counted x epoch one
  pub counted_other : Counted y epoch other
  pub culprits : List Text
  pub fault : (is_double (claim one) (claim other) || is_surround (claim one) (claim other)) ≡ true
  pub voted_one : All (λ v. get (v, one.th) x.seen ≡ some (one.s, one.t)) culprits
  pub voted_other : All (λ v. get (v, other.th) y.seen ≡ some (other.s, other.t)) culprits
  pub distinct : IsDistinct culprits
  pub third : quorum_stake [] stakes ≤ 3 * voted_stake stakes [] culprits
  pub some_stake : 0 < voted_stake stakes [] culprits

empty_of_nobody :
    (vs : List Text) → ((v : Text) → member v vs ≡ true → member v [] ≡ true) → vs ≡ []
unfolding member
empty_of_nobody [] h = refl
empty_of_nobody (v ∷ vs) h = ground (arith, h v, text_eq_iff v v)

-- In a static chain a link is counted over the stakes, with nobody excluded.
wins_over_stakes :
    (x : Ffg) (epoch : ℕ) (l : Link) (stakes : Balances)
    → IsStatic x stakes
    → (c : Counted x epoch l)
    → is_supermajority (voted_stake stakes [] c.voters) (quorum_stake [] stakes) ≡ true
wins_over_stakes x epoch l stakes static c =
    let frozen = static.snapshots l.s c.snapshot c.frozen in
    let nobody : c.without ≡ [] =
      empty_of_nobody c.without (λ v m. rw (← static.nobody) (c.slashed v m)) in
    cc (frozen, nobody, c.wins)

Conflict-Exposed :
    (x y : Ffg) (epoch : ℕ) (stakes : Balances)
    → IsUnique stakes
    → IsStatic x stakes
    → IsStatic y stakes
    → Conflict x y epoch
    → Exposed x y epoch stakes
Conflict-Exposed x y epoch stakes unique static static' k =
    let c = k.counted_one in
    let d = k.counted_other in
    let (third, some_stake) =
      common_third stakes [] c.voters d.voters unique c.distinct d.distinct
        (wins_over_stakes x epoch k.one stakes static c)
        (wins_over_stakes y epoch k.other stakes static' d) in
    record {
      one = k.one;
      other = k.other;
      counted_one = c;
      counted_other = d;
      culprits = common c.voters d.voters;
      fault = k.fault;
      voted_one =
          All-of_member (λ v. get (v, k.one.th) x.seen ≡ some (k.one.s, k.one.t))
            (common c.voters d.voters)
            (λ v m. c.voted v (ground (arith, m, member-common v c.voters d.voters)));
      voted_other =
          All-of_member (λ v. get (v, k.other.th) y.seen ≡ some (k.other.s, k.other.t))
            (common c.voters d.voters)
            (λ v m. d.voted v (ground (arith, m, member-common v c.voters d.voters)));
      distinct = common-IsDistinct c.voters d.voters c.distinct;
      third = third;
      some_stake = some_stake;
    }

module _ ⦃p : Primitives⦄ where
  -- Two chains grow from one accepted genesis by accepted blocks, none with the hash of a checkpoint
  -- before it. The first has finalized a checkpoint above genesis, the second one at least as high,
  -- and they share no checkpoint from the height of the first on. Then there are a link counted in
  -- the first and a link counted in the second that are a double or a surround vote, whatever stakes
  -- and slashes there were in between.
  pub opposed_links :
      (g : GenesisArgs) {c d e : PosChain}
      → init g ≡ ok c
      → FreshRun c d
      → FreshRun c e
      → 0 < d.self.state.finalized.1
      → d.self.state.finalized.1 ≤ e.self.state.finalized.1
      → AreApart (ffg d.self.state) (ffg e.self.state) d.self.state.finalized.1
      → Conflict (ffg d.self.state) (ffg e.self.state) g.epoch
  opposed_links g {c} {d} {e} start one other pos le apart =
      let b = FreshRun-IsBacked g start one in
      let b' = FreshRun-IsBacked g start other in
      finalized_Conflict (ffg d.self.state) (ffg e.self.state) g.epoch d.self.state.finalized
        e.self.state.finalized b.final b'.final pos le apart

  -- Accountable safety. Two chains grow from one accepted genesis by accepted blocks, none with the
  -- hash of a checkpoint before it; each checkpoint froze the stakes of genesis, and nobody is
  -- excluded. The first has finalized a checkpoint above genesis, the second one at least as high,
  -- and they share no checkpoint from the height of the first on. Then a link counted in the first
  -- chain and a link counted in the second, each between checkpoints of its chain at the heights that
  -- it names, are a double or a surround vote, and validators with a positive stake, at least a third
  -- of the total, each have a vote recorded for both links.
  pub accountable_safety :
      (g : GenesisArgs) {c d e : PosChain}
      → init g ≡ ok c
      → FreshRun c d
      → FreshRun c e
      → IsStatic (ffg d.self.state) c.self.state.stakes
      → IsStatic (ffg e.self.state) c.self.state.stakes
      → 0 < d.self.state.finalized.1
      → d.self.state.finalized.1 ≤ e.self.state.finalized.1
      → AreApart (ffg d.self.state) (ffg e.self.state) d.self.state.finalized.1
      → Exposed (ffg d.self.state) (ffg e.self.state) g.epoch c.self.state.stakes
  unfolding ValidStakes
  accountable_safety g {c} {d} {e} start one other static static' pos le apart =
      let stakes : ValidStakes c.self.state.stakes = rw start at (init-ValidStakes g) in
      Conflict-Exposed (ffg d.self.state) (ffg e.self.state) g.epoch c.self.state.stakes stakes.0
        static static' (opposed_links g start one other pos le apart)
