-- ===== src/Dict/Assoc.antt =====
-- A Python dict as its entries in insertion order.
use mindees_blockchain.Prelude.{
  ℕ, ◌+◌, ◌≡◌, Bool, true, false, Option, none, some, List, [], ◌∷◌, ◌++◌, Eq, ◌==◌, if◌then◌else◌,
}

abbrev pub Dict {ℓ κ} : Type ℓ → Type κ → Type (ℓ ⊔ κ)
Dict K V = List (K × V)

module _ {ℓ κ} {K : Type ℓ} {V : Type κ} ⦃e : Eq K⦄ where
  -- `d.get(k)`
  unfoldable pub get : K → Dict K V → Option V
  get k [] = none
  get k ((j, v) ∷ d) = if k == j then some v else get k d

  -- `d.get(k, default)`
  unfoldable pub get_or : K → V → Dict K V → V
  get_or k v [] = v
  get_or k v ((j, w) ∷ d) = if k == j then w else get_or k v d

  -- `k in d`
  unfoldable pub contains : K → Dict K V → Bool
  contains k [] = false
  contains k ((j, v) ∷ d) = if k == j then true else contains k d

  -- `d[k] = v`
  unfoldable pub put : K → V → Dict K V → Dict K V
  put k v [] = (k, v) ∷ []
  put k v ((j, w) ∷ d) = if k == j then (j, v) ∷ d else (j, w) ∷ put k v d

  -- `d.setdefault(k, v)`, for its effect on `d`
  unfoldable pub set_default : K → V → Dict K V → Dict K V
  unfolding contains
  set_default k v d = if contains k d then d else d ++ (k, v) ∷ []

  -- `d.pop(k, None)`, and `del d[k]` where `k` is present
  unfoldable pub erase : K → Dict K V → Dict K V
  erase k [] = []
  erase k ((j, v) ∷ d) = if k == j then d else (j, v) ∷ erase k d

  -- Python gives each key one entry.
  abbrev pub IsUnique : Dict K V → Type 0
  IsUnique [] = Unit
  IsUnique ((j, v) ∷ d) = (contains j d ≡ false) × IsUnique d

module _ {ℓ} {K : Type ℓ} ⦃e : Eq K⦄ where
  -- `sum(d.values())`
  unfoldable pub total : Dict K ℕ → ℕ
  total [] = 0
  total ((j, n) ∷ d) = n + total d

  -- `d[k] = d.get(k, 0) + n`
  unfoldable pub credit : K → ℕ → Dict K ℕ → Dict K ℕ
  unfolding put get_or
  credit k n d = put k (get_or k 0 d + n) d

  -- `x in s` and `s.add(x)` for a Python set, in the order of insertion
  unfoldable pub member : K → List K → Bool
  member x [] = false
  member x (y ∷ s) = if x == y then true else member x s

  unfoldable pub add : K → List K → List K
  unfolding member
  add x s = if member x s then s else s ++ x ∷ []
