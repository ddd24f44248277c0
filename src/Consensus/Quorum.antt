-- ===== src/Consensus/Quorum.antt =====
-- The safety argument of the finality votes: two supermajorities over one snapshot share a third of
-- its stake, and whoever is in both for two targets of one height has committed a provable fault.
use mindees_blockchain.Prelude.{
  ℕ, ◌+◌, ◌*◌, ◌≤◌, ◌<◌, ◌≡◌, ◌≢◌, true, false, ◌&&◌, List, [], ◌∷◌, Text, Text_eq, text_eq_iff,
  arith, if◌then◌else◌, refl,
}
use mindees_blockchain.Dict.{IsUnique, get_or, contains, member}
use mindees_blockchain.Core.Chain.{Balances}
use mindees_blockchain.Consensus.Evidence.{Link, claim, is_double}
use mindees_blockchain.Consensus.Vote.{voted_stake, quorum_stake, is_supermajority}

-- A set of voters as its members in order, each once.
abbrev pub IsDistinct : List Text → Type 0
IsDistinct [] = Unit
IsDistinct (v ∷ vs) = (member v vs ≡ false) × IsDistinct vs

-- The voters of `vs` who are also among `us`.
unfoldable pub common : List Text → List Text → List Text
common [] us = []
common (v ∷ vs) us = if member v us then v ∷ common vs us else common vs us

-- The stake of the voters, counted along the snapshot.
unfoldable pub share : List Text → List Text → Balances → ℕ
share slashed vs [] = 0
share slashed vs ((a, n) ∷ d) =
    (if member a slashed then 0 else (if member a vs then n else 0)) + share slashed vs d

pub member-common :
    (a : Text) (vs us : List Text) → member a (common vs us) ≡ (member a vs && member a us)
unfolding common member
member-common a [] us = refl
member-common a (v ∷ vs) us = ground (arith, text_eq_iff a v, member-common a vs us)

share-common :
    (slashed vs us : List Text) (d : Balances)
    → share slashed vs d + share slashed us d
      ≤ quorum_stake slashed d + share slashed (common vs us) d
unfolding share quorum_stake
share-common slashed vs us [] = omega arith
share-common slashed vs us ((a, n) ∷ d) =
    ground (arith, member-common a vs us, share-common slashed vs us d)

share-cons_absent :
    (slashed : List Text) (v : Text) (vs : List Text) (d : Balances)
    → contains v d ≡ false
    → share slashed (v ∷ vs) d ≡ share slashed vs d
unfolding share contains member
share-cons_absent slashed v vs [] h = refl
share-cons_absent slashed v vs ((a, n) ∷ d) h =
    ground (arith, text_eq_iff v a, text_eq_iff a v, share-cons_absent slashed v vs d)

share-cons :
    (slashed : List Text) (v : Text) (vs : List Text) (d : Balances)
    → IsUnique d
    → member v vs ≡ false
    → share slashed (v ∷ vs) d ≡ (if member v slashed then 0 else get_or v 0 d) + share slashed vs d
unfolding share get_or member
share-cons slashed v vs [] u h = ground arith
share-cons slashed v vs ((a, n) ∷ d) u h = ground (
  arith,
  text_eq_iff v a,
  text_eq_iff a v,
  share-cons_absent slashed v vs d,
  share-cons slashed v vs d,
)

share-nobody : (slashed : List Text) (d : Balances) → share slashed [] d ≡ 0
unfolding share member
share-nobody slashed [] = refl
share-nobody slashed ((a, n) ∷ d) = ground (arith, share-nobody slashed d)

voted_stake-share :
    (slashed vs : List Text) (d : Balances)
    → IsUnique d
    → IsDistinct vs
    → voted_stake d slashed vs ≡ share slashed vs d
unfolding voted_stake
voted_stake-share slashed [] d u h = omega (arith, share-nobody slashed d)
voted_stake-share slashed (v ∷ vs) d u h =
    omega (arith, share-cons slashed v vs d u h.0, voted_stake-share slashed vs d u h.1)

pub common-IsDistinct : (vs us : List Text) → IsDistinct vs → IsDistinct (common vs us)
unfolding common
common-IsDistinct [] us h = tt
common-IsDistinct (v ∷ vs) us h = ground (arith, member-common v vs us, common-IsDistinct vs us h.1)

-- Two supermajorities of one snapshot have a third of its stake in common.
pub common_third :
    (snapshot : Balances) (slashed vs us : List Text)
    → IsUnique snapshot
    → IsDistinct vs
    → IsDistinct us
    → is_supermajority (voted_stake snapshot slashed vs) (quorum_stake slashed snapshot) ≡ true
    → is_supermajority (voted_stake snapshot slashed us) (quorum_stake slashed snapshot) ≡ true
    → (quorum_stake slashed snapshot ≤ 3 * voted_stake snapshot slashed (common vs us))
      × (0 < voted_stake snapshot slashed (common vs us))
unfolding is_supermajority
common_third snapshot slashed vs us u dv du q r = ground (
  arith,
  voted_stake-share slashed vs snapshot u dv,
  voted_stake-share slashed us snapshot u du,
  voted_stake-share slashed (common vs us) snapshot u (common-IsDistinct vs us dv),
  share-common slashed vs us snapshot,
)

-- Two links to different targets of one height, counted over one snapshot that names each validator
-- once: if the distinct voters of each are a supermajority of the snapshot, those who are among both
-- hold a positive stake, at least a third of the stake that counts, and a pair of votes for the two
-- links is a double vote.
pub quorums_expose_third :
    (snapshot : Balances) (slashed vs us : List Text) (l k : Link)
    → IsUnique snapshot
    → IsDistinct vs
    → IsDistinct us
    → l.th ≡ k.th
    → l.t ≢ k.t
    → is_supermajority (voted_stake snapshot slashed vs) (quorum_stake slashed snapshot) ≡ true
    → is_supermajority (voted_stake snapshot slashed us) (quorum_stake slashed snapshot) ≡ true
    → (quorum_stake slashed snapshot ≤ 3 * voted_stake snapshot slashed (common vs us))
      × (0 < voted_stake snapshot slashed (common vs us))
      × (is_double (claim l) (claim k) ≡ true)
unfolding is_double
quorums_expose_third snapshot slashed vs us l k u dv du same_height apart q r =
    let (third, some_stake) = common_third snapshot slashed vs us u dv du q r in
    (third, some_stake, ground (arith, text_eq_iff l.t k.t))
