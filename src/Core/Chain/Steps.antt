-- ===== src/Core/Chain/Steps.antt =====
-- What an accepted block went through: each test passed and each step returned.
use mindees_blockchain.Prelude.{
  ◌+◌, ◌≡◌, refl, List, [], ◌∷◌, Text, Text_eq, ◌==◌, eqb, true, false, Bool, not, text_eq_iff,
  eqb_iff,
}
use mindees_blockchain.Dict.{get_or, member, add}
use mindees_blockchain.Json.{units}
use mindees_blockchain.Primitives.{Primitives}
use mindees_blockchain.Core.Transaction.{Transaction, txid, is_valid}
use mindees_blockchain.Core.Block.{Block, hash, root_of}
use mindees_blockchain.Core.Chain.{Chain, Work, Hooks, apply_txs, apply, begin, submit_block}
use mindees_blockchain.Result.{
  ok, >>=-eq-ok, raise_if-eq-ok, duplicate_tx, invalid_tx, bad_nonce, wrong_parent, wrong_index,
  wrong_merkle,
}

not-eq-false : (b : Bool) → not b ≡ false → b ≡ true
not-eq-false true h = refl
not-eq-false false h = cc

-- One round of the loop that did not raise.
pub record Round ⦃p : Primitives⦄ {Self Aux : Type 0} (hooks : Hooks Self Aux) (self : Self)
    (block : Block) (seen : List Text) (tx : Transaction) (txs : List Transaction) (w w' : Work Aux)
    : Type 0 where
  pub middle : Work Aux
  pub fresh : member (txid tx) seen ≡ false
  pub valid : is_valid tx ≡ true
  pub in_order : get_or tx.sender 0 w.nonces ≡ units tx.nonce
  pub applied : hooks.apply_tx self tx block w ≡ ok middle
  pub rest : apply_txs hooks self block (add (txid tx) seen) txs middle ≡ ok w'

module _ ⦃p : Primitives⦄ {Self Aux : Type 0} (hooks : Hooks Self Aux) where
  pub apply_txs-Round :
      (self : Self) (block : Block) (seen : List Text) (tx : Transaction) (txs : List Transaction)
      (w : Work Aux) {w' : Work Aux}
      → apply_txs hooks self block seen (tx ∷ txs) w ≡ ok w'
      → Round hooks self block seen tx txs w w'
  unfolding apply_txs
  apply_txs-Round self block seen tx txs w {w'} h =
      let (fresh, h1) = raise_if-eq-ok (member (txid tx) seen) duplicate_tx _ h in
      let (valid, h2) = raise_if-eq-ok (not (is_valid tx)) invalid_tx _ h1 in
      let (in_order, h3) =
        raise_if-eq-ok (not (eqb (get_or tx.sender 0 w.nonces) (units tx.nonce))) bad_nonce _ h2 in
      let (middle, applied, rest) =
        >>=-eq-ok (hooks.apply_tx self tx block w)
          (λ w1. apply_txs hooks self block (add (txid tx) seen) txs w1) {b = w'} h3 in
      record {
        middle = middle;
        fresh = fresh;
        valid = not-eq-false _ valid;
        in_order = (eqb_iff _ _).0 (not-eq-false _ in_order);
        applied = applied;
        rest = rest;
      }

-- What `submit_block` has checked of a block that it accepted, and what it made of the chain.
pub record Accepted ⦃p : Primitives⦄ {Self Aux : Type 0} (hooks : Hooks Self Aux) (c : Chain Self)
    (block : Block) (c' : Chain Self) : Type 0 where
  pub work : Work Aux
  pub parent : block.previous_hash ≡ hash c.head
  pub height : block.index ≡ c.head.index + 1
  pub sealed : root_of block.transactions ≡ ok block.root
  pub proposer : hooks.check_proposer c block ≡ ok tt
  pub run : apply_txs hooks c.self block [] block.transactions (begin hooks c block) ≡ ok work
  pub conserved : hooks.check_supply work ≡ ok tt
  pub result : c' ≡ record {
    balances = work.balances;
    nonces = work.nonces;
    head = block;
    older = c.head ∷ c.older;
    self = hooks.commit_aux work.aux c.self;
  }

module _ ⦃p : Primitives⦄ {Self Aux : Type 0} (hooks : Hooks Self Aux) where
  pub submit_block-Accepted :
      (c : Chain Self) (block : Block) {c' : Chain Self}
      → submit_block hooks c block ≡ ok c'
      → Accepted hooks c block c'
  unfolding submit_block
  submit_block-Accepted c block {c'} h0 =
      let (d, h, made) =
        >>=-eq-ok (apply hooks c block)
          (λ d. ok (record d { head = block; older = d.head ∷ d.older })) {b = c'} h0 in
      let (parent, h1) =
        raise_if-eq-ok (not (block.previous_hash == hash c.head)) wrong_parent _ h in
      let (height, h2) =
        raise_if-eq-ok (not (eqb block.index (c.head.index + 1))) wrong_index _ h1 in
      let (root, rooted, h3) = >>=-eq-ok (root_of block.transactions) _ {b = d} h2 in
      let (same, h4) = raise_if-eq-ok (not (block.root == root)) wrong_merkle _ h3 in
      let (u, proposer, h5) = >>=-eq-ok (hooks.check_proposer c block) _ {b = d} h4 in
      let (w, run, h6) =
        >>=-eq-ok (apply_txs hooks c.self block [] block.transactions (begin hooks c block)) _
          {b = d} h5 in
      let (v, conserved, last) = >>=-eq-ok (hooks.check_supply w) _ {b = d} h6 in
      record {
        work = w;
        parent = (text_eq_iff _ _).0 (not-eq-false _ parent);
        height = (eqb_iff _ _).0 (not-eq-false _ height);
        sealed = cc (rooted, (text_eq_iff _ _).0 (not-eq-false _ same));
        proposer = proposer;
        run = run;
        conserved = conserved;
        result = cc (made, last);
      }
