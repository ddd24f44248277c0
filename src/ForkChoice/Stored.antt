-- ===== src/ForkChoice/Stored.antt =====
-- The branch of a block that was just stored replays.
use mindees_blockchain.Prelude.{
  ℕ, suc, ◌≡◌, ◌≢◌, false, List, [], ◌∷◌, ◌++◌, some, none, Text, Text_eq, arith, length,
  text_eq_iff, refl, ◌∙◌, if◌then◌else◌,
}
use mindees_blockchain.Dict.{Dict, get, put, contains, get-put, get-put_self}
use mindees_blockchain.Primitives.{Primitives}
use mindees_blockchain.Core.Block.{Block, hash}
use mindees_blockchain.Consensus.State.{PosChain}
use mindees_blockchain.Consensus.Genesis.{init}
use mindees_blockchain.Consensus.Rules.{submit}
use mindees_blockchain.ForkChoice.{BlockTree, path_to, replay, chain_at, store_block}
use mindees_blockchain.ForkChoice.Branches.{
  Extends, path_to-Extends, path_to-append, replay-Extends, replay-append,
}
use mindees_blockchain.Result.{ok, >>=-eq-ok}

length-put {ℓ} :
    {V : Type ℓ} (k : Text) (v : V) (d : Dict Text V)
    → length (put k v d) ≡ (if contains k d then length d else suc (length d))
unfolding put contains
length-put k v [] = refl
length-put k v ((j, w) ∷ d) = ground (arith, length-put k v d)

contains-of_none {ℓ} :
    {V : Type ℓ} (k : Text) (d : Dict Text V) → get k d ≡ none → contains k d ≡ false
unfolding get contains
contains-of_none k [] h = refl
contains-of_none k ((j, w) ∷ d) h = ground (arith, contains-of_none k d)

get-put_new {ℓ} :
    {V : Type ℓ} (k j : Text) (v u : V) (d : Dict Text V)
    → get j d ≡ none
    → get k d ≡ some u
    → get k (put j v d) ≡ some u
get-put_new k j v u d new h = ground (arith, get-put k j v d, text_eq_iff k j)

pub store-Extends :
    ⦃p : Primitives⦄ (t : BlockTree) (block : Block) (height stake : ℕ) (c : PosChain)
    → get (hash block) t.parent ≡ none
    → get (hash block) t.blocks ≡ none
    → Extends t (store_block t block height stake c)
unfolding store_block
store-Extends t block height stake c new_parent new_block = record {
  args = refl;
  genesis = refl;
  parent = λ h up e. get-put_new h (hash block) block.previous_hash up t.parent new_parent e;
  blocks = λ h b e. get-put_new h (hash block) block b t.blocks new_block e;
  room = ground (arith, length-put (hash block) block.previous_hash t.parent);
}

path_to-step :
    (t : BlockTree) (f : ℕ) (h up : Text) (path : List Text)
    → h ≢ t.genesis_hash
    → get h t.parent ≡ some up
    → path_to (suc f) t h path ≡ path_to f t up (h ∷ path)
unfolding path_to
path_to-step t f h up path ne e = ground (arith, text_eq_iff h t.genesis_hash)

module _ ⦃p : Primitives⦄ where
  replay-one :
      (t : BlockTree) (h : Text) (block : Block) (c c' : PosChain)
      → get h t.blocks ≡ some block
      → submit c block ≡ ok c'
      → replay t (h ∷ []) c ≡ ok c'
  unfolding replay
  replay-one t h block c c' e s = rw (e, s) refl

  pub chain_at-path :
      (t : BlockTree) (h : Text) (path : List Text) (start c : PosChain)
      → path_to (length t.parent) t h [] ≡ ok path
      → init t.args ≡ ok start
      → replay t path start ≡ ok c
      → chain_at t h ≡ ok c
  unfolding chain_at
  chain_at-path t h path start c found began ran = rw (found, began) ran

  record Replayed (t : BlockTree) (h : Text) (c : PosChain) : Type 0 where
    pub path : List Text
    pub start : PosChain
    pub found : path_to (length t.parent) t h [] ≡ ok path
    pub began : init t.args ≡ ok start
    pub ran : replay t path start ≡ ok c

  chain_at-Replayed :
      (t : BlockTree) (h : Text) (c : PosChain) → chain_at t h ≡ ok c → Replayed t h c
  unfolding chain_at
  chain_at-Replayed t h c e =
      let (path, found, rest) = >>=-eq-ok (path_to (length t.parent) t h []) _ e in
      let (start, began, ran) = >>=-eq-ok (init t.args) _ rest in
      record { path = path; start = start; found = found; began = began; ran = ran }

  -- The branch of a block that was just stored.
  pub chain_at-store :
      (t : BlockTree) (block : Block) (height stake : ℕ) (c c' : PosChain)
      → get (hash block) t.parent ≡ none
      → get (hash block) t.blocks ≡ none
      → hash block ≢ t.genesis_hash
      → chain_at t block.previous_hash ≡ ok c
      → submit c block ≡ ok c'
      → chain_at (store_block t block height stake c') (hash block) ≡ ok c'
  chain_at-store t block height stake c c' new_parent new_block ne before applied =
      let h = hash block in
      let up = block.previous_hash in
      let t' = store_block t block height stake c' in
      let e = store-Extends t block height stake c' new_parent new_block in
      let r = chain_at-Replayed t up c before in
      let parent : get h t'.parent ≡ some up = unfold store_block in get-put_self h up t.parent in
      let stored : get h t'.blocks ≡ some block =
        unfold store_block in get-put_self h block t.blocks in
      let n = length t.parent in
      let walk : path_to n t' up (h ∷ []) ≡ ok (r.path ++ h ∷ []) =
        path_to-append t' n up [] (h ∷ []) r.path
          (path_to-Extends t t' n n up [] r.path e (omega arith) r.found) in
      let longer : length t'.parent ≡ suc n =
        unfold store_block in
        ground (arith, length-put h up t.parent, contains-of_none h t.parent new_parent) in
      let found : path_to (length t'.parent) t' h [] ≡ ok (r.path ++ h ∷ []) =
        rw longer (path_to-step t' n h up [] (unfold store_block in ne) parent ∙ walk) in
      let ran =
        replay-append t' r.path (h ∷ []) r.start c (replay-Extends t t' r.path r.start c e r.ran) in
      chain_at-path t' h (r.path ++ h ∷ []) r.start c' found (unfold store_block in r.began)
        (ran ∙ replay-one t' h block c c' stored applied)
