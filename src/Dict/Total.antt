-- ===== src/Dict/Total.antt =====
-- The sum of the values of a dict under each update: what supply conservation rests on.
use mindees_blockchain.Prelude.{ℕ, ◌+◌, ◌-◌, ◌≤◌, ◌≡◌, refl, [], ◌∷◌, ◌++◌, Eq, arith}
use mindees_blockchain.Dict.Assoc.{Dict, get_or, put, set_default, erase, total, credit}

module _ {ℓ} {K : Type ℓ} ⦃e : Eq K⦄ where
  pub total-put : (k : K) (n : ℕ) (d : Dict K ℕ) → total (put k n d) + get_or k 0 d ≡ total d + n
  unfolding total put get_or
  total-put k n [] = omega arith
  total-put k n ((j, m) ∷ d) = ground (arith, total-put k n d)

  pub total-credit : (k : K) (n : ℕ) (d : Dict K ℕ) → total (credit k n d) ≡ total d + n
  unfolding credit
  total-credit k n d = omega (arith, total-put k (get_or k 0 d + n) d)

  pub total-debit :
      (k : K) (n : ℕ) (d : Dict K ℕ)
      → n ≤ get_or k 0 d
      → total (put k (get_or k 0 d - n) d) + n ≡ total d
  total-debit k n d h = omega (arith, total-put k (get_or k 0 d - n) d)

  pub total-erase : (k : K) (d : Dict K ℕ) → total (erase k d) + get_or k 0 d ≡ total d
  unfolding total erase get_or
  total-erase k [] = refl
  total-erase k ((j, m) ∷ d) = ground (arith, total-erase k d)

  total-append : (c d : Dict K ℕ) → total (c ++ d) ≡ total c + total d
  unfolding total
  total-append [] d = omega arith
  total-append (x ∷ c) d = omega (arith, total-append c d)

  pub total-set_default : (k : K) (d : Dict K ℕ) → total (set_default k 0 d) ≡ total d
  unfolding set_default total
  total-set_default k d = ground (arith, total-append d ((k, 0) ∷ []))

  pub get_or-le-total : (k : K) (d : Dict K ℕ) → get_or k 0 d ≤ total d
  get_or-le-total k d = omega (arith, total-erase k d)
