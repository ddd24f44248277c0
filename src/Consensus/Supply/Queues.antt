-- ===== src/Consensus/Supply/Queues.antt =====
-- The units in the unbonding queues under each update of the queues.
use mindees_blockchain.Prelude.{ℕ, ◌+◌, ◌≤◌, ◌≡◌, refl, List, [], ◌∷◌, ◌++◌, Text, Text_eq, arith}
use mindees_blockchain.Dict.{Dict, get_or, put, erase, total, credit, total-credit, total-debit}
use mindees_blockchain.Core.Chain.{Balances}
use mindees_blockchain.Consensus.State.{Bond, bonded_in, unbonding_total, debit}
use mindees_blockchain.Consensus.Stake.{push_bond}
use mindees_blockchain.Consensus.Rules.{remaining, pay_out, mature, keep_queue}
use mindees_blockchain.Result.{Returns}

pub total-debited :
    (a : Text) (n : ℕ) (d : Balances)
    → n ≤ get_or a 0 d
    → Returns (λ d'. total d' + n ≡ total d) (debit a n d)
unfolding debit
total-debited a n d h = ground (arith, total-debit a n d)

pub bonded_in-append : (p q : List Bond) → bonded_in (p ++ q) ≡ bonded_in p + bonded_in q
unfolding bonded_in
bonded_in-append [] q = omega arith
bonded_in-append (b ∷ p) q = omega (arith, bonded_in-append p q)

unbonding_total-put :
    (a : Text) (q : List Bond) (u : Dict Text (List Bond))
    → unbonding_total (put a q u) + bonded_in (get_or a [] u) ≡ unbonding_total u + bonded_in q
unfolding unbonding_total put get_or
unbonding_total-put a q [] = ground arith
unbonding_total-put a q ((j, r) ∷ u) = ground (arith, unbonding_total-put a q u)

pub unbonding_total-push :
    (a : Text) (b : Bond) (u : Dict Text (List Bond))
    → unbonding_total (push_bond a b u) ≡ unbonding_total u + b.amount
unfolding push_bond bonded_in
unbonding_total-push a b u = omega (
  arith,
  unbonding_total-put a (get_or a [] u ++ b ∷ []) u,
  bonded_in-append (get_or a [] u) (b ∷ []),
)

pub unbonding_total-erase :
    (a : Text) (u : Dict Text (List Bond))
    → unbonding_total (erase a u) + bonded_in (get_or a [] u) ≡ unbonding_total u
unfolding unbonding_total erase get_or
unbonding_total-erase a [] = ground arith
unbonding_total-erase a ((j, r) ∷ u) = ground (arith, unbonding_total-erase a u)

total-pay_out :
    (h : ℕ) (a : Text) (q : List Bond) (d : Balances)
    → total (pay_out h a q d) + bonded_in (remaining h q) ≡ total d + bonded_in q
unfolding pay_out remaining bonded_in
total-pay_out h a [] d = refl
total-pay_out h a (b ∷ q) d = ground (
  arith,
  total-credit a b.amount d,
  total-pay_out h a q d,
  total-pay_out h a q (credit a b.amount d),
)

keep_queue_total :
    (a : Text) (q : List Bond) (u : Dict Text (List Bond))
    → unbonding_total (keep_queue a q u) ≡ bonded_in q + unbonding_total u
unfolding unbonding_total
keep_queue_total a [] u = omega arith
keep_queue_total a (b ∷ q) u = refl

-- What leaves the queues arrives in the balances.
pub total-mature :
    (h : ℕ) (u : Dict Text (List Bond)) (d : Balances)
    → unbonding_total (mature h u d).0 + total (mature h u d).1 ≡ unbonding_total u + total d
unfolding mature unbonding_total
total-mature h [] d = refl
total-mature h ((a, q) ∷ u) d = omega (
  arith,
  keep_queue_total a (remaining h q) (mature h u (pay_out h a q d)).0,
  total-pay_out h a q d,
  total-mature h u (pay_out h a q d),
)
