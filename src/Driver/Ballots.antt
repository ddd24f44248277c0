-- ===== src/Driver/Ballots.antt =====
-- The votes of the driver are sound: no second vote for a height, and a justified source below it.
use mindees_blockchain.Prelude.{
  ℕ, ◌%◌, ◌<◌, ◌≡◌, ◌⊎◌, inl, inr, ◌≢◌, All, ◌≤◌, true, false, Option, none, some, List, [], ◌∷◌,
  Text, Text_eq, ℕ_eq, pair_eq, arith, refl, Bool, Bool-cases, ltb, leb, eqb, ◌&&◌, subst, sym, ap,
  if◌then◌else◌,
}
use mathlib.Core.List.{reverse}
use mindees_blockchain.Dict.{contains, member}
use mindees_blockchain.Primitives.{Primitives}
use mindees_blockchain.Core.Block.{Block, hash}
use mindees_blockchain.Consensus.State.{PosChain}
use mindees_blockchain.Peers.{vote_target, vote_source}
use mindees_blockchain.Driver.{Ballot, ballot, ballot_for}

-- The newest block at a checkpoint height above genesis, of blocks that come newest first.
pub IsNewest : ℕ → Block → List Block → Type 0
IsNewest epoch target [] = ⊥
IsNewest epoch target (b ∷ older) =
    ((0 < b.index) × (b.index % epoch ≡ 0) × (target ≡ b))
    ⊎ (((b.index ≡ 0) ⊎ (b.index % epoch ≢ 0)) × IsNewest epoch target older)

abbrev AtNewest : ℕ → List Block → Option Block → Type 0
AtNewest epoch bs none = Unit
AtNewest epoch bs (some b) = IsNewest epoch b bs

older-AtNewest :
    (epoch : ℕ) (b : Block) (bs : List Block) (found : Option Block)
    → (b.index ≡ 0) ⊎ (b.index % epoch ≢ 0)
    → AtNewest epoch bs found
    → AtNewest epoch (b ∷ bs) found
unfolding IsNewest
older-AtNewest epoch b bs none passed h = tt
older-AtNewest epoch b bs (some target) passed h = inr (passed, h)

vote_target-AtNewest : (epoch : ℕ) (bs : List Block) → AtNewest epoch bs (vote_target epoch bs)
unfolding vote_target IsNewest
vote_target-AtNewest epoch [] = tt
vote_target-AtNewest epoch (b ∷ bs) = elim (Bool-cases (ltb 0 b.index && eqb (b.index % epoch) 0)) [
  | inl here ↦
      let found : vote_target epoch (b ∷ bs) ≡ some b = rw here refl in
      subst (AtNewest epoch (b ∷ bs)) (sym found) (inl (ground arith, ground arith, refl))
  | inr passed ↦
      let on : vote_target epoch (b ∷ bs) ≡ vote_target epoch bs = rw passed refl in
      subst (AtNewest epoch (b ∷ bs)) (sym on) (
        older-AtNewest epoch b bs (vote_target epoch bs) (ground arith)
          (vote_target-AtNewest epoch bs))
]

module _ ⦃p : Primitives⦄ where
  -- A justified block at a checkpoint height below a height, as a source.
  pub record IsJustified (epoch : ℕ) (justified : List Text) (height : ℕ) (b : Block) : Type 0 where
    pub below : b.index < height
    pub aligned : b.index % epoch ≡ 0
    pub named : member (hash b) justified ≡ true

  -- One of the blocks is the source, with its own height.
  pub Offers : ℕ → List Text → ℕ → Text × ℕ → List Block → Type 0
  Offers epoch justified height source [] = ⊥
  Offers epoch justified height source (b ∷ bs) =
      (IsJustified epoch justified height b × (source ≡ (hash b, b.index)))
      ⊎ Offers epoch justified height source bs

  -- No source stands above it: the block is no justified checkpoint below the height, or no higher.
  abbrev pub Tops : ℕ → List Text → ℕ → Text × ℕ → Block → Type 0
  Tops epoch justified height source b =
      (¬ IsJustified epoch justified height b) ⊎ (b.index ≤ source.1)

  module _ (epoch : ℕ) (justified : List Text) (height : ℕ) where
    abbrev is_better : Block → Text × ℕ → Bool
    is_better b source =
        ltb b.index height
        && (eqb (b.index % epoch) 0 && (member (hash b) justified && leb source.1 b.index))

    abbrev pick : Block → Text × ℕ → Text × ℕ
    pick b source = if is_better b source then (hash b, b.index) else source

    pick_cases :
        (b : Block) (source : Text × ℕ)
        → ((pick b source ≡ (hash b, b.index))
            × IsJustified epoch justified height b
            × (source.1 ≤ b.index))
          ⊎ ((pick b source ≡ source) × Tops epoch justified height source b)
    pick_cases b source = elim (Bool-cases (is_better b source)) [
      | inl better ↦ inl (
        rw better refl,
        record {
          below = ground (arith, better);
          aligned = ground (arith, better);
          named = ground (arith, better);
        },
        ground (arith, better),
      )
      | inr worse ↦ inr (
        rw worse refl,
        elim (Bool-cases (leb source.1 b.index)) [
          | inl le ↦ inl λ j. absurd (ground (arith, worse, le, j.below, j.aligned, j.named))
          | inr gt ↦ inr (ground (arith, gt))
        ],
      )
    ]

    vote_source-Offers :
        (bs : List Block) (source : Text × ℕ)
        → (vote_source epoch justified height bs source ≡ source)
          ⊎ Offers epoch justified height (vote_source epoch justified height bs source) bs
    unfolding vote_source Offers
    vote_source-Offers [] source = inl refl
    vote_source-Offers (b ∷ bs) source =
        let Found = λ (s : Text × ℕ). (s ≡ source) ⊎ Offers epoch justified height s (b ∷ bs) in
        elim (pick_cases b source) [
          | inl (e, j, le) ↦
              subst (λ s. Found (vote_source epoch justified height bs s)) (sym e)
                (elim (vote_source-Offers bs (hash b, b.index)) [
                  | inl same ↦ inr (inl (j, same))
                  | inr later ↦ inr (inr later)
                ])
          | inr (e, tops) ↦
              subst (λ s. Found (vote_source epoch justified height bs s)) (sym e)
                (elim (vote_source-Offers bs source) [
                  | inl same ↦ inl same
                  | inr later ↦ inr (inr later)
                ])
        ]

    vote_source_grows :
        (bs : List Block) (source : Text × ℕ)
        → source.1 ≤ (vote_source epoch justified height bs source).1
    unfolding vote_source
    vote_source_grows [] source = omega arith
    vote_source_grows (b ∷ bs) source =
        let more = vote_source_grows bs (pick b source) in
        elim (pick_cases b source) [
          | inl (e, j, le) ↦ ground (arith, ap (λ (s : Text × ℕ). s.1) e, le, more)
          | inr (e, tops) ↦ ground (arith, ap (λ (s : Text × ℕ). s.1) e, more)
        ]

    vote_source-Tops :
        (bs : List Block) (source : Text × ℕ)
        → All (Tops epoch justified height (vote_source epoch justified height bs source)) bs
    unfolding vote_source
    vote_source-Tops [] source = tt
    vote_source-Tops (b ∷ bs) source =
        let more = vote_source_grows bs (pick b source) in
        (
          elim (pick_cases b source) [
            | inl (e, j, le) ↦ inr (ground (arith, ap (λ (s : Text × ℕ). s.1) e, more))
            | inr (e, inl none_there) ↦ inl none_there
            | inr (e, inr le) ↦ inr (ground (arith, ap (λ (s : Text × ℕ). s.1) e, le, more))
          ],
          vote_source-Tops bs (pick b source),
        )

  -- What a ballot has to satisfy on a chain; blocks come oldest first where a source is meant.
  pub record Fits (a : Text) (c : PosChain) (b : Ballot) : Type 0 where
    pub staked : contains a c.self.state.stakes ≡ true
    pub unvoted : contains (a, b.target.index) c.self.state.ffg_seen_target ≡ false
    pub newest : IsNewest c.self.config.epoch b.target (c.head ∷ c.older)
    pub ordered : b.source.1 < b.target.index
    pub from_justified :
        (b.source ≡ c.self.state.finalized)
        ⊎ Offers c.self.config.epoch c.self.state.justified b.target.index b.source
            (reverse (c.head ∷ c.older))
    pub from_final : c.self.state.finalized.1 ≤ b.source.1
    pub highest :
        All
          (Tops c.self.config.epoch c.self.state.justified b.target.index b.source)
          (reverse (c.head ∷ c.older))

  ballot_for-Fits :
      (a : Text) (c : PosChain) (target : Option Block) (b : Ballot)
      → contains a c.self.state.stakes ≡ true
      → AtNewest c.self.config.epoch (c.head ∷ c.older) target
      → ballot_for a c target ≡ some b
      → Fits a c b
  unfolding ballot_for
  ballot_for-Fits a c none b staked t h = absurd (cc h)
  ballot_for-Fits a c (some target) b staked t h =
      let blocks = reverse (c.head ∷ c.older) in
      let source =
        vote_source c.self.config.epoch c.self.state.justified target.index blocks
          c.self.state.finalized in
      let chosen : Ballot = record { source = source; target = target } in
      let cast : chosen ≡ b = ground (arith, h) in
      subst (Fits a c) cast (record {
        staked = staked;
        unvoted = ground (arith, h);
        newest = t;
        ordered = ground (arith, h);
        from_justified =
            vote_source-Offers c.self.config.epoch c.self.state.justified target.index blocks
              c.self.state.finalized;
        from_final =
            vote_source_grows c.self.config.epoch c.self.state.justified target.index blocks
              c.self.state.finalized;
        highest =
            vote_source-Tops c.self.config.epoch c.self.state.justified target.index blocks
              c.self.state.finalized;
      })

  -- If the driver votes, then the validator has stake; the chain has no vote of it for the height of
  -- the target; the target is the newest block of the chain at a checkpoint height above genesis; the
  -- source, which is below the target, is the finalized checkpoint or a justified block of the chain
  -- at a checkpoint height, named with its own height; and no such block below the target is higher
  -- than the source, nor is the finalized checkpoint.
  pub ballot-Fits : (a : Text) (c : PosChain) (b : Ballot) → ballot a c ≡ some b → Fits a c b
  unfolding ballot
  ballot-Fits a c b h =
      ballot_for-Fits a c (vote_target c.self.config.epoch (c.head ∷ c.older)) b (ground arith)
        (vote_target-AtNewest c.self.config.epoch (c.head ∷ c.older)) (ground arith)
