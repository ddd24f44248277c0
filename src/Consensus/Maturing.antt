-- ===== src/Consensus/Maturing.antt =====
-- The units that `_apply_block_pre` pays out of a queue stay with their owner.
use mindees_blockchain.Prelude.{
  ℕ, ◌+◌, Bool-cases, inl, inr, ◌≡◌, refl, true, false, List, [], ◌∷◌, Text, Text_eq, text_eq_iff,
  ◌==◌, arith, if◌then◌else◌,
}
use mindees_blockchain.Dict.{Dict, IsUnique, get_or, contains, credit, get_or-absent}
use mindees_blockchain.Core.Chain.{Balances}
use mindees_blockchain.Consensus.State.{Bond, bonded_in}
use mindees_blockchain.Consensus.Rules.{remaining, pay_out, mature, keep_queue}
use mindees_blockchain.Consensus.Holdings.{get_or-credit}

abbrev pub BondQueues : Type 0
BondQueues = Dict Text (List Bond)

pay_out-bonds :
    (height : ℕ) (a k : Text) (q : List Bond) (d : Balances)
    → get_or a 0 (pay_out height k q d) + (if a == k then bonded_in (remaining height q) else 0)
      ≡ get_or a 0 d + (if a == k then bonded_in q else 0)
unfolding pay_out remaining bonded_in
pay_out-bonds height a k [] d = refl
pay_out-bonds height a k (b ∷ q) d = ground (
  arith,
  pay_out-bonds height a k q d,
  pay_out-bonds height a k q (credit k b.amount d),
  get_or-credit a k b.amount d,
)

bonded_in-absent :
    (a : Text) (u : BondQueues) → contains a u ≡ false → bonded_in (get_or a [] u) ≡ 0
unfolding bonded_in
bonded_in-absent a u h = rw (get_or-absent a [] u h) refl

get_or-absent_bonds :
    (a k : Text) (u : BondQueues)
    → contains k u ≡ false
    → (a == k) ≡ true
    → bonded_in (get_or a [] u) ≡ 0
get_or-absent_bonds a k u h e = bonded_in-absent a u (rw ((text_eq_iff a k).0 e) h)

get_or-keep_queue :
    (a k : Text) (q : List Bond) (u : BondQueues)
    → contains k u ≡ false
    → bonded_in (get_or a [] (keep_queue k q u))
      ≡ (if a == k then bonded_in q else bonded_in (get_or a [] u))
unfolding bonded_in get_or
get_or-keep_queue a k [] u h = elim (Bool-cases (a == k)) [
  | inl e ↦ rw e (get_or-absent_bonds a k u h e)
  | inr ne ↦ rw ne refl
]
get_or-keep_queue a k (b ∷ q) u h = elim (Bool-cases (a == k)) [
  | inl e ↦ rw e refl
  | inr ne ↦ rw ne refl
]

contains-keep_queue :
    (a k : Text) (q : List Bond) (u : BondQueues)
    → contains a u ≡ false
    → (a == k) ≡ false
    → contains a (keep_queue k q u) ≡ false
unfolding contains
contains-keep_queue a k [] u h ne = h
contains-keep_queue a k (b ∷ q) u h ne = ground arith

contains-mature :
    (height : ℕ) (a : Text) (u : BondQueues) (d : Balances)
    → contains a u ≡ false
    → contains a (mature height u d).0 ≡ false
unfolding mature contains
contains-mature height a [] d h = h
contains-mature height a ((k, q) ∷ u) d h = ground (
  arith,
  contains-mature height a u (pay_out height k q d),
  contains-keep_queue a k (remaining height q) (mature height u (pay_out height k q d)).0,
)

keep_queue-IsUnique :
    (k : Text) (q : List Bond) (u : BondQueues)
    → contains k u ≡ false
    → IsUnique u
    → IsUnique (keep_queue k q u)
keep_queue-IsUnique k [] u h i = i
keep_queue-IsUnique k (b ∷ q) u h i = (h, i)

pub mature-IsUnique :
    (height : ℕ) (u : BondQueues) (d : Balances) → IsUnique u → IsUnique (mature height u d).0
unfolding mature
mature-IsUnique height [] d h = tt
mature-IsUnique height ((k, q) ∷ u) d h =
    let d' = pay_out height k q d in
    keep_queue-IsUnique k (remaining height q) (mature height u d').0
      (contains-mature height k u d' h.0) (mature-IsUnique height u d' h.1)

get_or-queue :
    (a k : Text) (q : List Bond) (u : BondQueues)
    → contains k u ≡ false
    → bonded_in (get_or a [] ((k, q) ∷ u))
      ≡ (if a == k then bonded_in q else 0) + bonded_in (get_or a [] u)
unfolding get_or
get_or-queue a k q u h = elim (Bool-cases (a == k)) [
  | inl e ↦ rw e (omega (arith, get_or-absent_bonds a k u h e))
  | inr ne ↦ rw ne (omega arith)
]

pub mature-holding :
    (height : ℕ) (a : Text) (u : BondQueues) (d : Balances)
    → IsUnique u
    → get_or a 0 (mature height u d).1 + bonded_in (get_or a [] (mature height u d).0)
      ≡ get_or a 0 d + bonded_in (get_or a [] u)
unfolding mature
mature-holding height a [] d h = refl
mature-holding height a ((k, q) ∷ u) d h =
    let d' = pay_out height k q d in
    let u' = (mature height u d').0 in
    let absent = contains-mature height k u d' h.0 in
    ground (
      arith,
      mature-holding height a u d' h.1,
      get_or-keep_queue a k (remaining height q) u' absent,
      get_or-absent_bonds a k u' absent,
      get_or-queue a k q u h.0,
      pay_out-bonds height a k q d,
    )
