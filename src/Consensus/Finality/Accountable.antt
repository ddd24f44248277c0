-- ===== src/Consensus/Finality/Accountable.antt =====
-- The links of ProofOfStakeChain._apply_vote behind conflicting finalized checkpoints of two chains.
use mindees_blockchain.Prelude.{
  ℕ, ◌+◌, ◌%◌, ◌<◌, ◌≤◌, ◌≡◌, ◌≢◌, refl, true, false, ◌||◌, some, Text, Text_eq, ℕ_eq, pair_eq,
  arith, text_eq_iff, Bool-cases, inl, inr, ltb, eqb,
}
use mindees_blockchain.Dict.{get}
use mindees_blockchain.Consensus.Evidence.{Link, claim, is_double, is_surround}
use mindees_blockchain.Consensus.Finality.Records.{
  Ffg, Counted, Backed, Final, root, link, genesis, by_link,
}

-- A link over a height: from below it to that height or above.
record Crossing (y : Ffg) (epoch n : ℕ) : Type 0 where
  over : Link
  counted : Counted y epoch over
  below : over.sh < n
  reaches : n ≤ over.th

crossing :
    (y : Ffg) (epoch n : ℕ) (h : Text) (m : ℕ)
    → Backed y epoch h m
    → 0 < n
    → n ≤ m
    → Crossing y epoch n
crossing y epoch n _ _ (root h e) pos le = absurd (omega arith)
crossing y epoch n _ _ (link l c b) pos le = elim (Bool-cases (ltb l.sh n)) [
  | inl e ↦ record { over = l; counted = c; below = ground arith; reaches = le }
  | inr e ↦ crossing y epoch n l.s l.sh b pos (ground arith)
]

-- The link that justified a checkpoint above genesis.
record Into (x : Ffg) (epoch : ℕ) (h : Text) (n : ℕ) : Type 0 where
  from : Link
  counted : Counted x epoch from
  target : from.t ≡ h
  height : from.th ≡ n

into : (x : Ffg) (epoch : ℕ) (h : Text) (n : ℕ) → Backed x epoch h n → 0 < n → Into x epoch h n
into x epoch _ _ (root h e) pos = absurd (omega arith)
into x epoch _ _ (link l c b) pos = record { from = l; counted = c; target = refl; height = refl }

aligned_gap : (epoch m n : ℕ) → m % epoch ≡ 0 → n % epoch ≡ 0 → m < n → m + epoch ≤ n
aligned_gap epoch m n hm hn lt = grind arith

-- A link counted in one chain and a link counted in the other that no validator may vote for both.
pub record Conflict (x y : Ffg) (epoch : ℕ) : Type 0 where
  pub one : Link
  pub other : Link
  pub counted_one : Counted x epoch one
  pub counted_other : Counted y epoch other
  pub fault : (is_double (claim one) (claim other) || is_surround (claim one) (claim other)) ≡ true

-- From a height on, no checkpoint of one chain is one of the other.
abbrev pub AreApart : Ffg → Ffg → ℕ → Type 0
AreApart x y n = (h : Text) (m : ℕ) → n ≤ m → get h x.height ≡ some m → get h y.height ≢ some m

same_height-Conflict :
    (x y : Ffg) (epoch n : ℕ) (l k : Link)
    → Counted x epoch l
    → Counted y epoch k
    → AreApart x y n
    → n ≤ l.th
    → l.th ≡ k.th
    → Conflict x y epoch
unfolding is_double
same_height-Conflict x y epoch n l k c d apart le same = record {
  one = l;
  other = k;
  counted_one = c;
  counted_other = d;
  fault =
      let targets_differ : l.t ≢ k.t = λ e. apart l.t l.th le c.target (cc (e, d.target, same)) in
      ground (arith, text_eq_iff l.t k.t);
}

surrounds :
    (l k : Link)
    → k.sh < l.sh
    → l.th < k.th
    → (is_double (claim l) (claim k) || is_surround (claim l) (claim k)) ≡ true
unfolding is_surround
surrounds l k inner outer = ground arith

-- Aligned heights above a checkpoint and apart from its successor lie beyond the successor.
beyond_next :
    (epoch m n k : ℕ)
    → m % epoch ≡ 0
    → k % epoch ≡ 0
    → n ≡ m + epoch
    → m ≤ k
    → eqb k m ≡ false
    → eqb k n ≡ false
    → n < k
beyond_next epoch m n k hm hk next le ne ne' = ground (arith, aligned_gap epoch m k hm hk)

-- The link that justifies a checkpoint, the one that finalizes it, and one of the other chain over
-- its height.
module _ (x y : Ffg) (epoch : ℕ) (l j k : Link) (final : Counted x epoch l)
    (before : Counted x epoch j) (over : Counted y epoch k) (apart : AreApart x y l.sh) where
  over-Conflict : j.th ≡ l.sh → l.th ≡ l.sh + epoch → k.sh < l.sh → l.sh ≤ k.th → Conflict x y epoch
  over-Conflict same next below reaches = elim (Bool-cases (eqb k.th l.sh)) [
    | inl e ↦
        same_height-Conflict x y epoch l.sh j k before over apart (ground arith) (ground arith)
    | inr ne ↦ elim (Bool-cases (eqb k.th l.th)) [
      | inl e ↦
          same_height-Conflict x y epoch l.sh l k final over apart (ground arith) (ground arith)
      | inr beyond ↦ record {
        one = l;
        other = k;
        counted_one = final;
        counted_other = over;
        fault = surrounds l k below (
            beyond_next epoch l.sh l.th k.th final.source_aligned over.target_aligned next reaches
              ne beyond);
      }
    ]
  ]

-- The links behind two finalized checkpoints.
pub finalized_Conflict :
    (x y : Ffg) (epoch : ℕ) (f g : Text × ℕ)
    → Final x epoch f
    → Final y epoch g
    → 0 < f.1
    → f.1 ≤ g.1
    → AreApart x y f.1
    → Conflict x y epoch
finalized_Conflict x y epoch _ _ (genesis h) e pos le apart = absurd (omega arith)
finalized_Conflict x y epoch _ _ (by_link l b c next) (genesis h) pos le apart =
    absurd (omega arith)
finalized_Conflict x y epoch _ _ (by_link l b c next) (by_link k b' c' next') pos le apart =
    let j = into x epoch l.s l.sh b pos in
    let o = crossing y epoch l.sh k.s k.sh b' pos le in
    over-Conflict x y epoch l j.from o.over c j.counted o.counted apart j.height next o.below
      o.reaches
