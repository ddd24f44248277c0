-- ===== src/Consensus/Finality/Records.antt =====
-- What stands behind a justified or finalized checkpoint of consensus.py: links that a supermajority
-- has voted for.
use mindees_blockchain.Prelude.{
  ℕ, ◌+◌, ◌%◌, ◌<◌, ◌≡◌, true, some, List, [], Text, Text_eq, ℕ_eq, pair_eq, subst, sym,
}
use mindees_blockchain.Dict.{Dict, get, get_or, member}
use mindees_blockchain.Core.Chain.{Balances}
use mindees_blockchain.Consensus.State.{Aux}
use mindees_blockchain.Consensus.Evidence.{Link}
use mindees_blockchain.Consensus.Vote.{voted_stake, quorum_stake, is_supermajority}
use mindees_blockchain.Consensus.Quorum.{IsDistinct}

-- The part of the state that finality reads and writes.
pub record Ffg : Type 0 where
  pub stake : Dict Text Balances
  pub height : Dict Text ℕ
  pub votes : Dict (Text × Text) (List Text)
  pub seen : Dict (Text × ℕ) (Text × Text)
  pub justified : List Text
  pub parent : List Text
  pub finalized : Text × ℕ
  pub excluded : List Text

abbrev pub ffg : Aux → Ffg
ffg aux = record {
  stake = aux.ffg_stake;
  height = aux.ffg_height;
  votes = aux.ffg_votes;
  seen = aux.ffg_seen_target;
  justified = aux.justified;
  parent = aux.justified_parent;
  finalized = aux.finalized;
  excluded = aux.slashed_addrs;
}

-- `y` has all checkpoints, votes and exclusions of `x`.
pub record Extends (x y : Ffg) : Type 0 where
  pub stake : (h : Text) (s : Balances) → get h x.stake ≡ some s → get h y.stake ≡ some s
  pub height : (h : Text) (k : ℕ) → get h x.height ≡ some k → get h y.height ≡ some k
  pub seen :
      (v : Text) (k : ℕ) (l : Text × Text) → get (v, k) x.seen ≡ some l → get (v, k) y.seen ≡ some l
  pub excluded : (v : Text) → member v x.excluded ≡ true → member v y.excluded ≡ true

-- A link between checkpoints of the chain for which a supermajority of the source's snapshot voted,
-- when some validators were excluded.
pub record Counted (x : Ffg) (epoch : ℕ) (l : Link) : Type 0 where
  pub voters : List Text
  pub snapshot : Balances
  pub without : List Text
  pub frozen : get l.s x.stake ≡ some snapshot
  pub source : get l.s x.height ≡ some l.sh
  pub target : get l.t x.height ≡ some l.th
  pub ordered : l.sh < l.th
  pub source_aligned : l.sh % epoch ≡ 0
  pub target_aligned : l.th % epoch ≡ 0
  pub distinct : IsDistinct voters
  pub voted : (v : Text) → member v voters ≡ true → get (v, l.th) x.seen ≡ some (l.s, l.t)
  pub slashed : (v : Text) → member v without ≡ true → member v x.excluded ≡ true
  pub wins :
      is_supermajority (voted_stake snapshot without voters) (quorum_stake without snapshot) ≡ true

pub Counted-Extends :
    (x y : Ffg) (epoch : ℕ) (l : Link) → Extends x y → Counted x epoch l → Counted y epoch l
Counted-Extends x y epoch l e c = record {
  voters = c.voters;
  snapshot = c.snapshot;
  without = c.without;
  frozen = e.stake l.s c.snapshot c.frozen;
  source = e.height l.s l.sh c.source;
  target = e.height l.t l.th c.target;
  ordered = c.ordered;
  source_aligned = c.source_aligned;
  target_aligned = c.target_aligned;
  distinct = c.distinct;
  voted = λ v m. e.seen v l.th (l.s, l.t) (c.voted v m);
  slashed = λ v m. e.excluded v (c.slashed v m);
  wins = c.wins;
}

-- A checkpoint at a height that such links reach from one at height 0.
pub data Backed (x : Ffg) (epoch : ℕ) : Text → ℕ → Type 0 where
  root : (h : Text) → get h x.height ≡ some 0 → Backed x epoch h 0
  link : (l : Link) → Counted x epoch l → Backed x epoch l.s l.sh → Backed x epoch l.t l.th

pub Backed-height :
    (x : Ffg) (epoch : ℕ) (h : Text) (k : ℕ) → Backed x epoch h k → get h x.height ≡ some k
Backed-height x epoch _ _ (root h e) = e
Backed-height x epoch _ _ (link l c b) = c.target

pub Backed-Extends :
    (x y : Ffg) (epoch : ℕ) (h : Text) (k : ℕ)
    → Extends x y
    → Backed x epoch h k
    → Backed y epoch h k
Backed-Extends x y epoch _ _ e (root h z) = root h (e.height h 0 z)
Backed-Extends x y epoch _ _ e (link l c b) =
    link l (Counted-Extends x y epoch l e c) (Backed-Extends x y epoch l.s l.sh e b)

-- A finalized checkpoint is backed, and the source of a link to its direct successor.
pub data Final (x : Ffg) (epoch : ℕ) : Text × ℕ → Type 0 where
  genesis : (h : Text) → Final x epoch (h, 0)
  by_link :
      (l : Link)
      → Backed x epoch l.s l.sh
      → Counted x epoch l
      → l.th ≡ l.sh + epoch
      → Final x epoch (l.s, l.sh)

pub Final-Extends :
    (x y : Ffg) (epoch : ℕ) (f : Text × ℕ) → Extends x y → Final x epoch f → Final y epoch f
Final-Extends x y epoch _ e (genesis h) = genesis h
Final-Extends x y epoch _ e (by_link l b c d) =
    by_link l (Backed-Extends x y epoch l.s l.sh e b) (Counted-Extends x y epoch l e c) d

-- The invariant of the records.
pub record IsBacked (x : Ffg) (epoch : ℕ) : Type 0 where
  pub justified : (h : Text) → member h x.justified ≡ true → (k : ℕ) × Backed x epoch h k
  pub parent : (h : Text) → member h x.parent ≡ true → member h x.justified ≡ true
  pub final : Final x epoch x.finalized
  pub distinct : (l : Text × Text) → IsDistinct (get_or l [] x.votes)
  pub votes :
      (s t v : Text)
      → member v (get_or (s, t) [] x.votes) ≡ true
      → (k : ℕ) × (get t x.height ≡ some k) × (get (v, k) x.seen ≡ some (s, t))

-- Only checkpoints, votes for new heights or exclusions have been added.
pub IsBacked-more :
    (x y : Ffg) (epoch : ℕ)
    → Extends x y
    → y.votes ≡ x.votes
    → y.justified ≡ x.justified
    → y.finalized ≡ x.finalized
    → ((h : Text) → member h y.parent ≡ true → member h y.justified ≡ true)
    → IsBacked x epoch
    → IsBacked y epoch
IsBacked-more x y epoch e same_votes same_justified same_final parent b = record {
  justified = λ h m.
      let (k, d) = b.justified h (rw (← same_justified) m) in (k, Backed-Extends x y epoch h k e d);
  parent = parent;
  final = subst (Final y epoch) (sym same_final) (Final-Extends x y epoch x.finalized e b.final);
  distinct = λ l. rw same_votes (b.distinct l);
  votes = λ s t v m.
      let (k, height, seen) = b.votes s t v (rw (← same_votes) m) in
      (k, e.height t k height, e.seen v k (s, t) seen);
}
