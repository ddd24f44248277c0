-- ===== src/Consensus/Election/Draw.antt =====
-- The election draws a validator in proportion to stake.
use mindees_blockchain.Prelude.{
  ℕ, ◌+◌, ◌%◌, ◌≤◌, ◌<◌, ◌≡◌, refl, ◌⊎◌, inl, inr, false, some, List, [], ◌∷◌, Text, Text_eq, arith,
  ltb, Bool-cases, text_eq_iff, ◌∙◌,
}
use native.Mathlib.Nat.{mod-lt}
use mindees_blockchain.Dict.{get_or, contains, total, IsUnique}
use mindees_blockchain.Primitives.{Bytes}
use mindees_blockchain.Core.Chain.{Balances}
use mindees_blockchain.Core.Encoding.{from_bytes}
use mindees_blockchain.Consensus.Election.{
  active, insert_sorted, sorted, weight, draw, elect_validator,
}
use mindees_blockchain.Result.{ok}

-- The stake of the validators in front of one.
abbrev pub Drawn : Balances → ℕ → ℕ → List Text → Text → Type 0
Drawn stakes pick cumulative [] a = ⊥
Drawn stakes pick cumulative (v ∷ vs) a =
    ((a ≡ v) × (cumulative ≤ pick) × (pick < cumulative + get_or v 0 stakes))
    ⊎ Drawn stakes pick (cumulative + get_or v 0 stakes) vs a

draw-Drawn :
    (stakes : Balances) (pick cumulative : ℕ) (vs : List Text)
    → cumulative ≤ pick
    → pick < cumulative + weight stakes vs
    → (a : Text) × (draw stakes pick cumulative vs ≡ some a) × Drawn stakes pick cumulative vs a
unfolding draw weight
draw-Drawn stakes pick cumulative [] lo hi = absurd (omega arith)
draw-Drawn stakes pick cumulative (v ∷ vs) lo hi =
    elim (Bool-cases (ltb pick (cumulative + get_or v 0 stakes))) [
      | inl found ↦ (v, ground arith, inl (refl, lo, ground arith))
      | inr more ↦
          let (a, e, d) =
            draw-Drawn stakes pick (cumulative + get_or v 0 stakes) vs (ground arith)
              (omega arith) in
          (a, rw more e, inr d)
    ]

weight-insert_sorted :
    (stakes : Balances) (a : Text) (vs : List Text)
    → weight stakes (insert_sorted a vs) ≡ get_or a 0 stakes + weight stakes vs
unfolding weight insert_sorted
weight-insert_sorted stakes a [] = refl
weight-insert_sorted stakes a (v ∷ vs) = ground (arith, weight-insert_sorted stakes a vs)

weight-sorted : (stakes : Balances) (vs : List Text) → weight stakes (sorted vs) ≡ weight stakes vs
unfolding weight sorted
weight-sorted stakes [] = refl
weight-sorted stakes (v ∷ vs) =
    omega (arith, weight-sorted stakes vs, weight-insert_sorted stakes v (sorted vs))

-- A lookup finds each entry of `d` in `stakes`.
abbrev Agrees : Balances → Balances → Type 0
Agrees stakes [] = Unit
Agrees stakes ((a, n) ∷ d) = (get_or a 0 stakes ≡ n) × Agrees stakes d

Agrees-cons :
    (a : Text) (n : ℕ) (stakes d : Balances)
    → contains a d ≡ false
    → Agrees stakes d
    → Agrees ((a, n) ∷ stakes) d
unfolding contains get_or
Agrees-cons a n stakes [] h g = tt
Agrees-cons a n stakes ((b, m) ∷ d) h g =
    ground (arith, text_eq_iff a b, text_eq_iff b a, Agrees-cons a n stakes d)

Agrees-self : (d : Balances) → IsUnique d → Agrees d d
unfolding get_or
Agrees-self [] u = tt
Agrees-self ((a, n) ∷ d) u =
    ground (arith, text_eq_iff a a, Agrees-cons a n d d u.0 (Agrees-self d u.1))

weight-active : (stakes d : Balances) → Agrees stakes d → weight stakes (active d) ≡ total d
unfolding weight active total
weight-active stakes [] h = refl
weight-active stakes ((a, n) ∷ d) h = ground (arith, weight-active stakes d h.1)

weight-validators :
    (stakes : Balances) → IsUnique stakes → weight stakes (sorted (active stakes)) ≡ total stakes
weight-validators stakes u =
    weight-sorted stakes (active stakes) ∙ weight-active stakes stakes (Agrees-self stakes u)

Drawn-pos :
    (stakes : Balances) (pick cumulative : ℕ) (vs : List Text) (a : Text)
    → Drawn stakes pick cumulative vs a
    → 0 < get_or a 0 stakes
Drawn-pos stakes pick cumulative [] a h = absurd h
Drawn-pos stakes pick cumulative (v ∷ vs) a (inl (e, lo, hi)) = rw e (omega arith)
Drawn-pos stakes pick cumulative (v ∷ vs) a (inr h) =
    Drawn-pos stakes pick (cumulative + get_or v 0 stakes) vs a h

elect_validator-draws :
    (stakes : Balances) (seed : Bytes)
    → let vs = sorted (active stakes) in
      0 < weight stakes vs
      → (a : Text) × (elect_validator stakes seed ≡ ok a)
        × Drawn stakes (from_bytes 0 seed % weight stakes vs) 0 vs a
unfolding elect_validator
elect_validator-draws stakes seed h =
    let vs = sorted (active stakes) in
    let (a, e, d) =
      draw-Drawn stakes (from_bytes 0 seed % weight stakes vs) 0 vs (omega arith)
        (omega (arith, mod-lt (from_bytes 0 seed) h)) in
    (a, ground arith, d)

-- Where the stakes, of distinct validators, hold anything, the election succeeds. The validators in
-- front of the winner have no more stake together than the pick, with the winner's own they exceed
-- it, and the winner has stake.
pub elect_validator_wins :
    (stakes : Balances) (seed : Bytes)
    → IsUnique stakes
    → 0 < total stakes
    → (a : Text) × (elect_validator stakes seed ≡ ok a)
      × Drawn stakes (from_bytes 0 seed % total stakes) 0 (sorted (active stakes)) a
      × (0 < get_or a 0 stakes)
elect_validator_wins stakes seed u h =
    let e = weight-validators stakes u in
    let (a, elected, d) = elect_validator-draws stakes seed (omega (arith, e)) in
    let d' = rw e at d in (a, elected, d', Drawn-pos stakes _ 0 (sorted (active stakes)) a d')
