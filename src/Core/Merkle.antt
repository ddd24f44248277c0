-- ===== src/Core/Merkle.antt =====
-- core.merkle_root: the Merkle tree of a block's transaction ids.
pub mod Layers
use mindees_blockchain.Prelude.{
  ℕ, zero, suc, ◌%◌, Bool, Option, none, some, List, [], ◌∷◌, ◌++◌, Text, length, leb, eqb,
  if◌then◌else◌,
}
use mindees_blockchain.Primitives.{Primitives, Bytes}
use mindees_blockchain.Core.Encoding.{hex, from_hex, sha256}
use mindees_blockchain.Result.{Result, ok, err, value_error, or_raise, ◌>>=◌}

-- `[bytes.fromhex(t) for t in txids]`
unfoldable pub leaves : List Text → Result (List Bytes)
leaves [] = ok []
leaves (t ∷ ts) = do b ← or_raise (from_hex t) value_error; bs ← leaves ts; ok (b ∷ bs)

abbrev pub with_last : {A : Type 0} → A → List A → List A
with_last b [] = b ∷ b ∷ []
with_last b (c ∷ cs) = b ∷ with_last c cs

-- `layer.append(layer[-1])`
unfoldable pub append_last : {A : Type 0} → List A → List A
append_last [] = []
append_last (b ∷ bs) = with_last b bs

-- A layer of odd length has its last entry twice.
unfoldable pub pad : List Bytes → List Bytes
unfolding append_last
pad layer = if eqb (length layer % 2) 1 then append_last layer else layer

module _ ⦃p : Primitives⦄ where
  unfoldable pub pair_up : List Bytes → List Bytes
  pair_up [] = []
  pair_up (a ∷ []) = []
  pair_up (a ∷ b ∷ bs) = sha256 (a ++ b) ∷ pair_up bs

  -- `while len(layer) > 1`, on fuel: a layer shrinks in each round, so its length is enough.
  unfoldable pub reduce : ℕ → List Bytes → List Bytes
  reduce zero layer = layer
  reduce (suc f) layer =
      let rest = reduce f (pair_up (pad layer)) in if leb (length layer) 1 then layer else rest

  abbrev pub top : List Bytes → Result Text
  top [] = err value_error
  top (b ∷ bs) = ok (hex b)

  unfoldable pub merkle_root : List Text → Result Text
  unfolding leaves reduce
  merkle_root [] = ok (hex (sha256 []))
  merkle_root (t ∷ ts) = do layer ← leaves (t ∷ ts); top (reduce (length layer) layer)
