-- ===== src/Dict/Laws.antt =====
-- What a lookup finds after each update.
use mindees_blockchain.Prelude.{
  ◌≡◌, ◌≢◌, refl, true, false, some, List, [], ◌∷◌, ◌++◌, Eq, ◌==◌, if◌then◌else◌, arith, beq_refl,
  All, Bool-cases, inl, inr,
}
use mindees_blockchain.Dict.Assoc.{
  Dict, get, get_or, contains, put, set_default, erase, IsUnique, member, add,
}

module _ {ℓ κ} {K : Type ℓ} {V : Type κ} ⦃e : Eq K⦄ where
  pub get_or-put_self : (k : K) (v w : V) (d : Dict K V) → get_or k w (put k v d) ≡ v
  unfolding get_or put
  get_or-put_self k v w [] = ground (arith, beq_refl k)
  get_or-put_self k v w ((j, u) ∷ d) = ground (arith, beq_refl k, get_or-put_self k v w d)

  pub get_or-put_ne :
      (k j : K) (v w : V) (d : Dict K V) → k ≢ j → get_or k w (put j v d) ≡ get_or k w d
  unfolding get_or put
  get_or-put_ne k j v w [] h = ground (arith, e.beq_iff k j)
  get_or-put_ne k j v w ((i, u) ∷ d) h =
      ground (arith, e.beq_iff k i, e.beq_iff j i, get_or-put_ne k j v w d)

  pub get-put_self : (k : K) (v : V) (d : Dict K V) → get k (put k v d) ≡ some v
  unfolding get put
  get-put_self k v [] = ground (arith, beq_refl k)
  get-put_self k v ((j, u) ∷ d) = ground (arith, beq_refl k, get-put_self k v d)

  pub get-put_ne : (k j : K) (v : V) (d : Dict K V) → k ≢ j → get k (put j v d) ≡ get k d
  unfolding get put
  get-put_ne k j v [] h = ground (arith, e.beq_iff k j)
  get-put_ne k j v ((i, u) ∷ d) h =
      ground (arith, e.beq_iff k i, e.beq_iff j i, get-put_ne k j v d h)

  pub get-put :
      (k j : K) (v : V) (d : Dict K V) → get k (put j v d) ≡ (if k == j then some v else get k d)
  unfolding get put
  get-put k j v [] = refl
  get-put k j v ((i, u) ∷ d) =
      ground (arith, e.beq_iff k i, e.beq_iff j i, e.beq_iff k j, get-put k j v d)

  pub get_or-put :
      (k j : K) (v w : V) (d : Dict K V)
      → get_or k w (put j v d) ≡ (if k == j then v else get_or k w d)
  unfolding get_or put
  get_or-put k j v w [] = refl
  get_or-put k j v w ((i, u) ∷ d) =
      ground (arith, e.beq_iff k i, e.beq_iff j i, e.beq_iff k j, get_or-put k j v w d)

  pub contains→get :
      (k : K) (w : V) (d : Dict K V) → contains k d ≡ true → get k d ≡ some (get_or k w d)
  unfolding get get_or contains
  contains→get k w [] h = cc
  contains→get k w ((i, u) ∷ d) h = ground (arith, contains→get k w d)

  pub get→contains : (k : K) (v : V) (d : Dict K V) → get k d ≡ some v → contains k d ≡ true
  unfolding get contains
  get→contains k v [] h = cc
  get→contains k v ((i, u) ∷ d) h = ground (arith, get→contains k v d)

  pub get_or-of_get : (k : K) (v w : V) (d : Dict K V) → get k d ≡ some v → get_or k w d ≡ v
  unfolding get get_or
  get_or-of_get k v w [] h = cc
  get_or-of_get k v w ((j, u) ∷ d) h = ground (arith, get_or-of_get k v w d)

  -- A value written where it is the one that a lookup gives changes no entry.
  pub get-put_same :
      (k j : K) (v u : V) (d : Dict K V)
      → get_or j v d ≡ v
      → get k d ≡ some u
      → get k (put j v d) ≡ some u
  get-put_same k j v u d same h =
      ground (arith, get-put k j v d, get_or-of_get j u v d, e.beq_iff k j)

  pub contains-put :
      (k j : K) (v : V) (d : Dict K V)
      → contains k (put j v d) ≡ (if k == j then true else contains k d)
  unfolding contains put
  contains-put k j v [] = refl
  contains-put k j v ((i, u) ∷ d) =
      ground (arith, e.beq_iff k i, e.beq_iff j i, e.beq_iff k j, contains-put k j v d)

  pub put-IsUnique : (k : K) (v : V) (d : Dict K V) → IsUnique d → IsUnique (put k v d)
  unfolding contains put
  put-IsUnique k v [] h = (refl, tt)
  put-IsUnique k v ((j, u) ∷ d) h =
      ground (arith, e.beq_iff k j, e.beq_iff j k, put-IsUnique k v d h.1, contains-put j k v d)

  pub get_or-absent : (k : K) (w : V) (d : Dict K V) → contains k d ≡ false → get_or k w d ≡ w
  unfolding contains get_or
  get_or-absent k w [] h = refl
  get_or-absent k w ((j, u) ∷ d) h = ground (arith, get_or-absent k w d)

  pub contains-erase_ne : (k j : K) (d : Dict K V) → k ≢ j → contains k (erase j d) ≡ contains k d
  unfolding contains erase
  contains-erase_ne k j [] h = refl
  contains-erase_ne k j ((i, u) ∷ d) h =
      ground (arith, e.beq_iff k i, e.beq_iff j i, contains-erase_ne k j d h)

  pub contains-erase_self : (k : K) (d : Dict K V) → IsUnique d → contains k (erase k d) ≡ false
  unfolding contains erase
  contains-erase_self k [] h = refl
  contains-erase_self k ((j, u) ∷ d) h = ground (arith, e.beq_iff k j, contains-erase_self k d h.1)

  pub get_or-erase_self : (k : K) (w : V) (d : Dict K V) → IsUnique d → get_or k w (erase k d) ≡ w
  get_or-erase_self k w d h = get_or-absent k w (erase k d) (contains-erase_self k d h)

  pub get_or-erase_ne :
      (k j : K) (w : V) (d : Dict K V) → k ≢ j → get_or k w (erase j d) ≡ get_or k w d
  unfolding get_or erase
  get_or-erase_ne k j w [] h = refl
  get_or-erase_ne k j w ((i, u) ∷ d) h =
      ground (arith, e.beq_iff k i, e.beq_iff j i, get_or-erase_ne k j w d h)

  pub erase-IsUnique : (k : K) (d : Dict K V) → IsUnique d → IsUnique (erase k d)
  unfolding contains erase
  erase-IsUnique k [] h = tt
  erase-IsUnique k ((j, u) ∷ d) h =
      ground (arith, e.beq_iff k j, e.beq_iff j k, erase-IsUnique k d h.1, contains-erase_ne j k d)

  get_or-append :
      (k j : K) (v w : V) (d : Dict K V)
      → get_or k w (d ++ (j, v) ∷ [])
        ≡ (if contains k d then get_or k w d else (if k == j then v else w))
  unfolding get_or contains
  get_or-append k j v w [] = refl
  get_or-append k j v w ((i, u) ∷ d) = ground (arith, get_or-append k j v w d)

  -- A default that lookups use already changes no lookup.
  pub get_or-set_default :
      (k j : K) (w : V) (d : Dict K V) → get_or k w (set_default j w d) ≡ get_or k w d
  unfolding set_default
  get_or-set_default k j w d = ground (arith, get_or-append k j w w d, get_or-absent k w d)

  pub get_or-set_default_self :
      (k j : K) (w : V) (d : Dict K V) → get_or k w (set_default j (get_or j w d) d) ≡ get_or k w d
  unfolding set_default
  get_or-set_default_self k j w d = ground (
    arith,
    get_or-append k j (get_or j w d) w d,
    get_or-absent k w d,
    get_or-absent j w d,
    e.beq_iff k j,
  )

module _ {ℓ} {K : Type ℓ} ⦃e : Eq K⦄ where
  pub member-append :
      (x y : K) (s : List K) → member x (s ++ y ∷ []) ≡ (if member x s then true else (x == y))
  unfolding member
  member-append x y [] = ground arith
  member-append x y (z ∷ s) = ground (arith, member-append x y s)

  pub member-add :
      (x y : K) (s : List K) → member x (add y s) ≡ (if x == y then true else member x s)
  unfolding add
  member-add x y s = ground (arith, member-append x y s, e.beq_iff x y)

  pub member-add_self : (x : K) (s : List K) → member x (add x s) ≡ true
  member-add_self x s = ground (arith, member-add x x s, beq_refl x)

module _ {ℓ κ} {K : Type ℓ} ⦃e : Eq K⦄ where
  -- A predicate of all members holds along the list.
  pub All-of_member :
      (P : K → Type κ) (ks : List K) → ((k : K) → member k ks ≡ true → P k) → All P ks
  unfolding member
  All-of_member P [] h = tt
  All-of_member P (k ∷ ks) h =
      (h k (ground (arith, beq_refl k)), All-of_member P ks λ j m. h j (ground (arith, m)))

module _ {ℓ κ ι} {K : Type ℓ} {V : Type κ} ⦃e : Eq K⦄ where
  -- A predicate of all keys that a lookup finds holds along the entries.
  pub All-of_found :
      (P : K → Type ι) (d : Dict K V)
      → ((k : K) (v : V) → get k d ≡ some v → P k)
      → All (λ (entry : K × V). P entry.0) d
  unfolding get
  All-of_found P [] h = tt
  All-of_found P ((k, v) ∷ d) h = (
    h k v (ground (arith, beq_refl k)),
    All-of_found P d λ j u m. elim (Bool-cases (j == k)) [
      | inl same ↦ h j v (ground (arith, same))
      | inr other ↦ h j u (ground (arith, other, m))
    ],
  )
