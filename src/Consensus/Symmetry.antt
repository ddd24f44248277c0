-- ===== src/Consensus/Symmetry.antt =====
-- The order of the two items of slashing evidence, in verify_vote_fault, verify_equivocation and
-- _apply_slash, does not matter.
use mindees_blockchain.Prelude.{
  ℕ, ℤ, pos, negsuc, int_eq, int_lt, ◌≡◌, refl, Bool, true, false, ◌||◌, ◌&&◌, [], ◌∷◌, Text, text,
  text_eq, text_lt, Text_eq, text_eq_iff, arith, Bool-cases, inl, inr,
}
use mindees_blockchain.Json.{Fields, lookup}
use mindees_blockchain.Primitives.{Primitives}
use mindees_blockchain.Core.Transaction.{Transaction, txid}
use mindees_blockchain.Core.Block.{Block, hash}
use mindees_blockchain.Consensus.Evidence.{
  Claim, is_double, is_surround, offense_id, sorted_ids, verify_vote_fault, verify_equivocation,
}
use mindees_blockchain.Consensus.State.{Offense}
use mindees_blockchain.Consensus.Slash.{read_offense, is_vote_kind}
use mindees_blockchain.Result.{ok}

text_lt_total : (s t : Text) → text_lt s t ≡ false → text_lt t s ≡ false → s ≡ t
unfolding text_lt
text_lt_total [] [] h k = refl
text_lt_total [] (c ∷ t) h k = cc
text_lt_total (a ∷ s) [] h k = cc
text_lt_total (a ∷ s) (c ∷ t) h k = ground (arith, text_lt_total s t)

text_lt_asym : (s t : Text) → text_lt s t ≡ true → text_lt t s ≡ false
unfolding text_lt
text_lt_asym [] [] h = refl
text_lt_asym [] (c ∷ t) h = refl
text_lt_asym (a ∷ s) [] h = cc
text_lt_asym (a ∷ s) (c ∷ t) h = ground (arith, text_lt_asym s t)

text_eq_comm : (s t : Text) → text_eq s t ≡ text_eq t s
text_eq_comm s t = ground (arith, text_eq_iff s t, text_eq_iff t s)

int_eq_comm : (m n : ℤ) → int_eq m n ≡ int_eq n m
int_eq_comm (pos m) (pos n) = ground arith
int_eq_comm (pos m) (negsuc n) = refl
int_eq_comm (negsuc m) (pos n) = refl
int_eq_comm (negsuc m) (negsuc n) = ground arith

is_double_comm : (l k : Claim) → is_double l k ≡ is_double k l
unfolding is_double
is_double_comm l k = rw (int_eq_comm l.th k.th, text_eq_comm l.t k.t, text_eq_comm l.s k.s) refl

or_comm : (b c : Bool) → (b || c) ≡ (c || b)
or_comm true true = refl
or_comm true false = refl
or_comm false true = refl
or_comm false false = refl

is_surround_comm : (l k : Claim) → is_surround l k ≡ is_surround k l
unfolding is_surround
is_surround_comm l k =
    or_comm (int_lt l.sh k.sh && int_lt k.th l.th) (int_lt k.sh l.sh && int_lt l.th k.th)

module _ ⦃p : Primitives⦄ where
  sorted_ids_comm : (s t : Text) → sorted_ids s t ≡ sorted_ids t s
  sorted_ids_comm s t = elim (Bool-cases (text_lt t s)) [
    | inl less ↦ rw (less, text_lt_asym t s less) refl
    | inr ge ↦ elim (Bool-cases (text_lt s t)) [
      | inl less ↦ rw (ge, less) refl
      | inr le ↦ rw (text_lt_total s t le ge) refl
    ]
  ]

  offense_id_comm : (a b : Transaction) → offense_id a b ≡ offense_id b a
  unfolding offense_id
  offense_id_comm a b = rw (sorted_ids_comm (txid a) (txid b)) refl

  verify_vote_fault_comm :
      (a b : Transaction) {found : Text × Text}
      → verify_vote_fault a b ≡ ok found
      → verify_vote_fault b a ≡ ok found
  unfolding verify_vote_fault
  verify_vote_fault_comm a b h = grind (
    arith,
    text_eq_iff a.sender b.sender,
    text_eq_iff b.sender a.sender,
    offense_id_comm a b,
    is_double_comm,
    is_surround_comm,
  )

  verify_equivocation_comm :
      (a b : Block) {found : Text × ℕ}
      → verify_equivocation a b ≡ ok found
      → verify_equivocation b a ≡ ok found
  unfolding verify_equivocation
  verify_equivocation_comm a b h = grind (
    arith,
    text_eq_iff a.previous_hash b.previous_hash,
    text_eq_iff b.previous_hash a.previous_hash,
    text_eq_iff a.validator b.validator,
    text_eq_iff b.validator a.validator,
    text_eq_comm (hash a) (hash b),
  )

  -- Evidence that proves an offense proves the same one, with the same key and against the same
  -- validator, when its two items change places, be they votes or blocks: so a recorded offense is
  -- not slashed again by the same evidence in the other order.
  pub offense_either_order :
      (d e : Fields) {found : Text × Offense}
      → lookup (text "kind") e ≡ lookup (text "kind") d
      → lookup (text "a") e ≡ lookup (text "b") d
      → lookup (text "b") e ≡ lookup (text "a") d
      → read_offense d ≡ ok found
      → read_offense e ≡ ok found
  unfolding read_offense is_vote_kind
  offense_either_order d e kind first second h =
      grind (arith, kind, first, second, verify_vote_fault_comm, verify_equivocation_comm)
