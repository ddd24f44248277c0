-- ===== src/Consensus/Election.antt =====
-- consensus.elect_validator: the proposer of a height, drawn by stake from a seed.
pub mod Draw
use mindees_blockchain.Prelude.{
  ℕ, ◌+◌, ◌%◌, Bool, Option, none, some, List, [], ◌∷◌, ◌++◌, Text, Text_eq, text_lt, ltb, eqb,
  if◌then◌else◌,
}
use mindees_blockchain.Dict.{get_or}
use mindees_blockchain.Core.Chain.{Balances}
use mindees_blockchain.Core.Encoding.{sha256, from_hex, from_bytes, to_bytes}
use mindees_blockchain.Primitives.{Primitives, Bytes}
use mindees_blockchain.Result.{
  Result, ok, value_error, no_validators, raise_if, or_raise, ◌>>=◌, ◌>>◌,
}

-- `(a for a, amt in stakes.items() if amt > 0)`
unfoldable pub active : Balances → List Text
active [] = []
active ((a, n) ∷ d) = if ltb 0 n then a ∷ active d else active d

unfoldable pub insert_sorted : Text → List Text → List Text
insert_sorted a [] = a ∷ []
insert_sorted a (b ∷ bs) = if text_lt b a then b ∷ insert_sorted a bs else a ∷ b ∷ bs

-- `sorted(...)`
unfoldable pub sorted : List Text → List Text
unfolding insert_sorted
sorted [] = []
sorted (a ∷ as') = insert_sorted a (sorted as')

-- `sum(stakes[a] for a in validators)`
unfoldable pub weight : Balances → List Text → ℕ
weight stakes [] = 0
weight stakes (a ∷ vs) = get_or a 0 stakes + weight stakes vs

-- The loop: the first validator whose cumulative stake exceeds `pick`.
unfoldable pub draw : Balances → ℕ → ℕ → List Text → Option Text
draw stakes pick cumulative [] = none
draw stakes pick cumulative (a ∷ vs) =
    let rest = draw stakes pick (cumulative + get_or a 0 stakes) vs in
    if ltb pick (cumulative + get_or a 0 stakes) then some a else rest

abbrev last : List Text → Text
last [] = []
last (a ∷ []) = a
last (a ∷ b ∷ vs) = last (b ∷ vs)

-- With the fallback `validators[-1]` of the source.
abbrev or_last : Option Text → List Text → Text
or_last none vs = last vs
or_last (some a) vs = a

unfoldable pub elect_validator : Balances → Bytes → Result Text
unfolding active sorted weight draw
elect_validator stakes seed = do
  let validators = sorted (active stakes)
  let total = weight stakes validators
  raise_if (eqb total 0) no_validators
  ok (or_last (draw stakes (from_bytes 0 seed % total) 0 validators) validators)

module _ ⦃p : Primitives⦄ where
  -- ProofOfStakeChain._seed
  unfoldable pub seed_of : Text → ℕ → Result Bytes
  seed_of prev_hash index = do
    prev ← or_raise (from_hex prev_hash) value_error
    ok (sha256 (prev ++ to_bytes 8 index))

  -- ProofOfStakeChain._elect, over the stakes of the chain
  unfoldable pub elect : Balances → Text → ℕ → Result Text
  unfolding seed_of
  elect stakes prev_hash index = do seed ← seed_of prev_hash index; elect_validator stakes seed
