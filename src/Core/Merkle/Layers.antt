-- ===== src/Core/Merkle/Layers.antt =====
-- The Merkle loop ends with one hash, and an odd layer has the same root with its last leaf twice.
use mindees_blockchain.Prelude.{
  ℕ, zero, suc, ◌+◌, ◌/◌, ◌%◌, ◌≤◌, ◌<◌, ◌≡◌, refl, List, [], ◌∷◌, Text, arith, length, ap, sym,
  ◌∙◌,
}
use mindees_blockchain.Primitives.{Primitives, Bytes}
use mindees_blockchain.Core.Merkle.{
  append_last, pad, pair_up, reduce, merkle_root, with_last, leaves, top,
}
use mindees_blockchain.Result.{ok}
use mathlib.Core.Path.{◌≡⟨◌⟩◌, ◌∎}

length-with_last : (b : Bytes) (bs : List Bytes) → length (with_last b bs) ≡ length bs + 2
length-with_last b [] = refl
length-with_last b (c ∷ cs) = omega (arith, length-with_last c cs)

length-pad : (l : List Bytes) → length (pad l) ≡ length l + length l % 2
unfolding pad append_last
length-pad [] = refl
length-pad (b ∷ bs) = ground (arith, length-with_last b bs)

module _ ⦃p : Primitives⦄ where
  length-pair_up : (l : List Bytes) → length (pair_up l) ≡ length l / 2
  unfolding pair_up
  length-pair_up [] = refl
  length-pair_up (a ∷ []) = refl
  length-pair_up (a ∷ b ∷ l) = omega (arith, length-pair_up l)

  -- One round halves a layer, rounding up.
  length-round : (l : List Bytes) → length (pair_up (pad l)) ≡ (length l + 1) / 2
  length-round l = omega (arith, length-pair_up (pad l), length-pad l)

  -- From a layer that is not empty, as many rounds as it has entries leave exactly one hash.
  pub length-reduce :
      (f : ℕ) (l : List Bytes) → 0 < length l → length l ≤ f → length (reduce f l) ≡ 1
  unfolding reduce
  length-reduce zero l pos le = absurd (omega arith)
  length-reduce (suc f) l pos le = ground (arith, length-round l, length-reduce f (pair_up (pad l)))

  reduce_fuel : (f g : ℕ) (l : List Bytes) → length l ≤ f → length l ≤ g → reduce f l ≡ reduce g l
  unfolding reduce
  reduce_fuel zero zero l lf lg = refl
  reduce_fuel zero (suc g) l lf lg = ground arith
  reduce_fuel (suc f) zero l lf lg = ground arith
  reduce_fuel (suc f) (suc g) l lf lg =
      ground (arith, length-round l, reduce_fuel f g (pair_up (pad l)))

  pad-pad : (l : List Bytes) → pad (pad l) ≡ pad l
  pad-pad l = unfold pad in ground (arith, length-pad l)

  reduce_step :
      (f : ℕ) (l : List Bytes) → 1 < length l → reduce (suc f) l ≡ reduce f (pair_up (pad l))
  unfolding reduce
  reduce_step f l long = ground arith

  pad_odd : (l : List Bytes) → length l % 2 ≡ 1 → pad l ≡ append_last l
  unfolding pad
  pad_odd l odd = ground arith

  -- A layer of odd length, longer than one, is reduced as it is with its last entry twice.
  reduce-append_last :
      (l : List Bytes)
      → length l % 2 ≡ 1
      → 1 < length l
      → reduce (length (append_last l)) (append_last l) ≡ reduce (length l) l
  reduce-append_last l odd long =
      let e = pad_odd l odd in
      let n = length l in
      let longer : length (append_last l) ≡ n + 1 = omega (arith, length-pad l, ap length e) in
      reduce (length (append_last l)) (append_last l)
      ≡⟨ reduce_fuel _ (suc n) (append_last l) (omega arith) (omega arith) ⟩
        reduce (suc n) (append_last l)
      ≡⟨ reduce_step n (append_last l) (omega arith) ⟩ reduce n (pair_up (pad (append_last l)))
      ≡⟨ ap (λ x. reduce n (pair_up x)) (ap pad (sym e) ∙ pad-pad l) ⟩ reduce n (pair_up (pad l))
      ≡⟨ sym (reduce_step n l long) ⟩ reduce (suc n) l
      ≡⟨ reduce_fuel (suc n) n l (omega arith) (omega arith) ⟩ reduce n l ∎

  leaves-with_last :
      (t : Text) (ts : List Text) (b : Bytes) (bs : List Bytes)
      → leaves (t ∷ ts) ≡ ok (b ∷ bs)
      → leaves (with_last t ts) ≡ ok (with_last b bs)
  unfolding leaves
  leaves-with_last t [] b bs h = ground arith
  leaves-with_last t (u ∷ us) b [] h = ground arith
  leaves-with_last t (u ∷ us) b (c ∷ cs) h = ground (arith, leaves-with_last u us c cs)

  length-leaves : (ts : List Text) (bs : List Bytes) → leaves ts ≡ ok bs → length bs ≡ length ts
  unfolding leaves
  length-leaves [] bs h = ground arith
  length-leaves (t ∷ ts) [] h = ground arith
  length-leaves (t ∷ ts) (b ∷ bs) h = ground (arith, length-leaves ts bs)

  -- An odd number of ids, at least three and all hexadecimal, has the same root as with its last id
  -- twice: the root alone does not fix the transactions of a block.
  pub merkle_root_twin :
      (t u : Text) (ts : List Text) (bs : List Bytes)
      → leaves (t ∷ u ∷ ts) ≡ ok bs
      → length ts % 2 ≡ 1
      → merkle_root (with_last t (u ∷ ts)) ≡ merkle_root (t ∷ u ∷ ts)
  unfolding merkle_root append_last
  merkle_root_twin t u ts [] h odd = absurd (omega (arith, length-leaves (t ∷ u ∷ ts) [] h))
  merkle_root_twin t u ts (b ∷ bs) h odd =
      let n = length-leaves (t ∷ u ∷ ts) (b ∷ bs) h in
      rw (leaves-with_last t (u ∷ ts) b bs h, h)
        (ap top (reduce-append_last (b ∷ bs) (omega (arith, n)) (omega (arith, n))))
