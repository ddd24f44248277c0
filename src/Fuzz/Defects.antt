-- ===== src/Fuzz/Defects.antt =====
-- The defects of fuzz._invalid_round.
use mindees_blockchain.Prelude.{
  ℕ, ◌+◌, ◌*◌, ◌<◌, ◌≡◌, ◌≢◌, refl, Bool, true, false, Option, none, some, List, [], ◌∷◌, Text,
  Text_eq, All, arith, ◌==◌, subst, ◌⊎◌, inl, inr,
}
use mindees_blockchain.Dict.{get_or}
use mindees_blockchain.Json.{Json, num, units}
use mindees_blockchain.Primitives.{Primitives}
use mindees_blockchain.Core.Signature.{Wallet, address}
use mindees_blockchain.Core.Transaction.{Transaction}
use mindees_blockchain.Core.Chain.{coin, balance_of}
use mindees_blockchain.Consensus.State.{PosChain}
use mindees_blockchain.Consensus.Rules.{next_validator}
use mindees_blockchain.Consensus.Build.{add_block}
use mindees_blockchain.Consensus.Validators.{AreStaffed}
use mindees_blockchain.Consensus.Instant.{IsInstant}
use mindees_blockchain.Fuzz.Refusals.{
  IsPlain, add_block-Added, pay_fields, overspend_refused, nonce_refused, dup_refused,
  unstaked_refused,
}
use mindees_blockchain.Fuzz.{
  pariah, actors, by_addr, later_or, check_invariants, Verdict, holds, broken, pay, accepted_defect,
  Defect, proposer_fault, overspend, nonce_fault, tamper, dup, defect_block, invalid_round,
  elected_wallet, with_proposer, refused, judged,
}
use mindees_blockchain.Result.{
  Result, ok, err, invalid, key_error, value_error, type_error, attribute_error, system_exit,
  ill_typed, or_raise, >>=-eq-ok,
}

module _ ⦃p : Primitives⦄ where
  -- The payment that a defect starts from.
  record Payment (s r : Wallet) (n m : ℕ) (tx : Transaction) : Type 0 where
    from : tx.sender ≡ address s
    to : tx.recipient ≡ address r
    pays : units tx.amount ≡ n
    free : units tx.fee ≡ 0
    counts : units tx.nonce ≡ m

  pay-Payment :
      (s r : Wallet) (n m : ℕ) {tx : Transaction} → pay s r n m ≡ ok tx → Payment s r n m tx
  unfolding units
  pay-Payment s r n m {tx} h =
      let (a, b, x, y, z) : (tx.sender ≡ address s)
          × (tx.recipient ≡ address r)
          × (tx.amount ≡ num n)
          × (tx.fee ≡ num 0)
          × (tx.nonce ≡ num m) =
        rw h at (pay_fields s r n m) in
      record { from = a; to = b; pays = rw x refl; free = rw y refl; counts = rw z refl }

module _ ⦃p : Primitives⦄ (c : PosChain) (i : IsInstant c)
    (staffed : AreStaffed c.self.state.stakes)
    (unstaked : get_or (address pariah) 0 c.self.state.stakes ≡ 0) where
  too_much :
      (s r : Wallet) (n m extra : ℕ) (tx tx' : Transaction) (ts : Json) (d : PosChain)
      → IsPlain (address r)
      → 0 < extra
      → Payment s r n m tx
      → (tx'.sender ≡ tx.sender)
        × (tx'.recipient ≡ tx.recipient)
        × (units tx'.amount ≡ balance_of (address s) c + extra)
      → add_block c (tx' ∷ []) r ts (num 0) ≢ ok d
  unfolding balance_of
  too_much s r n m extra tx tx' ts d plain more q (from, to, amount) h =
      overspend_refused tx' i (rw (to, q.to) plain)
        (rw (from, q.from) (omega (arith, amount, more)))
        (add_block-Added c d (tx' ∷ []) r ts (num 0) h)

  defect_refused :
      (kind : Defect) (s r : Wallet) (ts : Json) (d : PosChain)
      → IsPlain (address r)
      → defect_block c kind s r ts ≢ ok d
  unfolding defect_block
  defect_refused proposer_fault s r ts d plain h =
      unstaked_refused [] staffed unstaked (add_block-Added c d [] pariah ts (num 0) h)
  defect_refused overspend s r ts d plain h =
      let n = balance_of (address s) c + 1000 * coin in
      let m = get_or (address s) 0 c.nonces in
      let (tx, paid, h') = >>=-eq-ok (pay s r n m) _ {b = d} h in
      let q = pay-Payment s r n m paid in
      too_much s r n m (1000 * coin) tx tx ts d plain (omega arith) q (refl, refl, q.pays) h'
  defect_refused nonce_fault s r ts d plain h =
      let n = 1 * coin in
      let m = get_or (address s) 0 c.nonces + 5 in
      let (tx, paid, h') = >>=-eq-ok (pay s r n m) _ {b = d} h in
      let q = pay-Payment s r n m paid in
      nonce_refused tx i (rw q.from (omega (arith, q.counts)))
        (add_block-Added c d (tx ∷ []) r ts (num 0) h')
  defect_refused tamper s r ts d plain h =
      let n = 1 * coin in
      let m = get_or (address s) 0 c.nonces in
      let (tx, paid, h') = >>=-eq-ok (pay s r n m) _ {b = d} h in
      let q = pay-Payment s r n m paid in
      too_much s r n m (999 * coin) tx
        (record tx { amount = num (balance_of (address s) c + 999 * coin) }) ts d plain
        (omega arith) q (refl, refl, unfold units in refl) h'
  defect_refused dup s r ts d plain h =
      let n = 1 * coin in
      let m = get_or (address s) 0 c.nonces in
      let (tx, paid, h') = >>=-eq-ok (pay s r n m) _ {b = d} h in
      dup_refused tx (add_block-Added c d (tx ∷ tx ∷ []) r ts (num 0) h')

later_or-cases :
    (m : Option Wallet) (same : Bool) (v : Wallet) {w : Wallet}
    → later_or m same v ≡ some w
    → (v ≡ w) ⊎ (m ≡ some w)
later_or-cases (some u) same v h = inr h
later_or-cases none true v h = inl (cc)
later_or-cases none false v h = cc

module _ ⦃p : Primitives⦄ where
  by_addr-All :
      (P : Wallet → Type 0) (a : Text) (ws : List Wallet) {w : Wallet}
      → All P ws
      → by_addr a ws ≡ some w
      → P w
  by_addr-All P a [] all h = cc
  by_addr-All P a (v ∷ ws) all h = elim (later_or-cases (by_addr a ws) (a == address v) v h) [
    | inl e ↦ subst P e all.0
    | inr rest ↦ by_addr-All P a ws all.1 rest
  ]

  IsPlain-proposer :
      (c : PosChain) {w : Wallet}
      → All (λ v. IsPlain (address v)) actors
      → elected_wallet c ≡ ok w
      → IsPlain (address w)
  unfolding elected_wallet
  IsPlain-proposer c {w} plain h =
      let (a, elected, found) =
        >>=-eq-ok (next_validator c) (λ a. or_raise (by_addr a actors) key_error) {b = w} h in
      by_addr-All (λ v. IsPlain (address v)) a actors plain (ground (arith, found))

  judged_ne : (c : PosChain) (v : Verdict) → judged c v ≢ accepted_defect
  judged_ne c holds h = cc
  judged_ne c (broken message) h = cc

  refused_ne :
      (c : PosChain) (m : Result PosChain)
      → ((d : PosChain) → m ≢ ok d)
      → refused c m ≢ accepted_defect
  refused_ne c (ok d) never h = never d refl
  refused_ne c (err (invalid reason)) never h = judged_ne c (check_invariants c) h
  refused_ne c (err key_error) never h = cc
  refused_ne c (err value_error) never h = cc
  refused_ne c (err type_error) never h = cc
  refused_ne c (err attribute_error) never h = cc
  refused_ne c (err system_exit) never h = cc
  refused_ne c (err ill_typed) never h = cc

  with_proposer_ne :
      (c : PosChain) (kind : Defect) (s : Wallet) (ts : Json) (m : Result Wallet)
      → ((w : Wallet) (d : PosChain) → m ≡ ok w → defect_block c kind s w ts ≢ ok d)
      → with_proposer c kind s ts m ≢ accepted_defect
  with_proposer_ne c kind s ts (ok w) never h =
      refused_ne c (defect_block c kind s w ts) (λ d. never w d refl) h
  with_proposer_ne c kind s ts (err e) never h = cc

  -- On a chain without an unbonding period whose validators all have stake, the outcast being none
  -- of them, and where no actor's address is the name of an operation, every block with a defect is
  -- refused, whichever defect it has: a proposer without stake, a payment beyond the balance, a nonce
  -- that is ahead, an amount raised after signing, or one transaction twice.
  pub invalid_round-ne-accepted_defect :
      (c : PosChain) (kind : Defect) (s : Wallet) (ts : Json)
      → IsInstant c
      → AreStaffed c.self.state.stakes
      → get_or (address pariah) 0 c.self.state.stakes ≡ 0
      → All (λ v. IsPlain (address v)) actors
      → invalid_round c kind s ts ≢ accepted_defect
  unfolding invalid_round
  invalid_round-ne-accepted_defect c kind s ts i staffed unstaked plain h =
      with_proposer_ne c kind s ts (elected_wallet c)
        (λ w d e. defect_refused c i staffed unstaked kind s w ts d (IsPlain-proposer c plain e)) h
