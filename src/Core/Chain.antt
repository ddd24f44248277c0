-- ===== src/Core/Chain.antt =====
-- core.Blockchain: the ledger. `_apply` is a template method; the methods that a consensus layer
-- overrides are the fields of `Hooks`, and the attributes that such a layer adds are `Self`.
pub mod Steps
pub mod Distinct
use mindees_blockchain.Prelude.{
  ℕ, ◌+◌, ◌-◌, ◌*◌, ◌^◌, Bool, true, false, ◌&&◌, Option, none, some, List, [], ◌∷◌, map, Text,
  text, ◌==◌, Text_eq, eqb, ltb, not, if◌then◌else◌,
}
use mindees_blockchain.Dict.{Dict, get_or, put, set_default, total, credit, member, add}
use mindees_blockchain.Json.{Json, int, num, is_units, units}
use mindees_blockchain.Prelude.{ℤ, pos, negsuc}
use mindees_blockchain.Primitives.{Primitives}
use mindees_blockchain.Core.Transaction.{Transaction, txid, is_valid}
use mindees_blockchain.Core.Block.{Block, hash, root_of, post_init}
use mindees_blockchain.Result.{
  Result, ok, raise_if, ◌>>=◌, ◌>>◌, bad_allocation, wrong_supply, wrong_parent, wrong_index,
  wrong_merkle, duplicate_tx, invalid_tx, bad_nonce, insufficient_funds, supply_violated,
}

abbrev pub coin : ℕ
coin = 10 ^ 8

abbrev pub max_supply : ℕ
max_supply = 1_000_000

abbrev pub max_supply_units : ℕ
max_supply_units = max_supply * coin

abbrev pub Balances : Type 0
Balances = Dict Text ℕ

-- The attributes of a chain. Blocks are kept newest first: `head` is `chain[-1]`.
pub record Chain (Self : Type 0) : Type 0 where
  pub balances : Balances
  pub nonces : Balances
  pub head : Block
  pub older : List Block
  pub self : Self

-- The copies that `_apply` works on, so that a rejected block changes nothing.
pub record Work (Aux : Type 0) : Type 0 where
  pub balances : Balances
  pub nonces : Balances
  pub aux : Aux

pub record Hooks (Self Aux : Type 0) : Type 0 where
  pub check_proposer : Chain Self → Block → Result (Unit {0})
  pub snapshot_aux : Self → Aux
  pub apply_block_pre : Self → Block → Work Aux → Work Aux
  pub apply_tx : Self → Transaction → Block → Work Aux → Result (Work Aux)
  pub check_supply : Work Aux → Result (Unit {0})
  pub commit_aux : Aux → Self → Self

module _ {Aux : Type 0} where
  -- Blockchain._apply_tx
  unfoldable pub transfer : Transaction → Block → Work Aux → Result (Work Aux)
  transfer tx block w = do
    let cost = units tx.amount + units tx.fee
    raise_if (ltb (get_or tx.sender 0 w.balances) cost) insufficient_funds
    let debited = put tx.sender (get_or tx.sender 0 w.balances - cost) w.balances
    let paid = credit tx.recipient (units tx.amount) debited
    let nonces = put tx.sender (units tx.nonce + 1) w.nonces
    ok (record w {
      balances = credit block.validator (units tx.fee) paid;
      nonces = set_default tx.recipient (get_or tx.recipient 0 nonces) nonces;
    })

module _ ⦃p : Primitives⦄ {Self Aux : Type 0} (hooks : Hooks Self Aux) where
  -- The loop over the transactions of a block; `seen` are the ids before this one.
  unfoldable pub apply_txs :
      Self → Block → List Text → List Transaction → Work Aux → Result (Work Aux)
  apply_txs self block seen [] w = ok w
  apply_txs self block seen (tx ∷ txs) w = do
    raise_if (member (txid tx) seen) duplicate_tx
    raise_if (not (is_valid tx)) invalid_tx
    raise_if (not (eqb (get_or tx.sender 0 w.nonces) (units tx.nonce))) bad_nonce
    w' ← hooks.apply_tx self tx block w
    apply_txs self block (add (txid tx) seen) txs w'

  -- The copies, after the hook that runs before the transactions.
  unfoldable pub begin : Chain Self → Block → Work Aux
  begin c block =
      hooks.apply_block_pre c.self block
        (record { balances = c.balances; nonces = c.nonces; aux = hooks.snapshot_aux c.self })

  -- Blockchain._apply: the chain with the new balances, nonces and attributes
  unfoldable pub apply : Chain Self → Block → Result (Chain Self)
  apply c block = do
    raise_if (not (block.previous_hash == hash c.head)) wrong_parent
    raise_if (not (eqb block.index (c.head.index + 1))) wrong_index
    root ← root_of block.transactions
    raise_if (not (block.root == root)) wrong_merkle
    hooks.check_proposer c block
    w ← apply_txs c.self block [] block.transactions (begin c block)
    hooks.check_supply w
    ok (record c { balances = w.balances; nonces = w.nonces; self = hooks.commit_aux w.aux c.self })

  -- `_apply` and `chain.append(block)`
  unfoldable pub submit_block : Chain Self → Block → Result (Chain Self)
  unfolding apply
  submit_block c block = do
    c' ← apply c block
    ok (record c' { head = block; older = c'.head ∷ c'.older })

  -- Blockchain.add_block
  unfoldable pub add_block :
      Chain Self → List Transaction → Text → Json → Json → Result (Chain Self)
  unfolding submit_block post_init
  add_block c transactions validator timestamp nonce = do
    block ← post_init (record {
      index = c.head.index + 1;
      previous_hash = hash c.head;
      timestamp = timestamp;
      transactions = transactions;
      validator = validator;
      nonce = nonce;
      root = [];
      proposer_pubkey = [];
      validator_sig = [];
    })
    submit_block c block

module _ ⦃p : Primitives⦄ where
  abbrev linked : Block → List Block → Bool
  linked b [] = true
  linked b (a ∷ older) =
      (b.previous_hash == hash a) && (eqb b.index (a.index + 1) && linked a older)

  -- Blockchain.is_valid_chain
  unfoldable pub is_valid_chain : {Self : Type 0} → Chain Self → Bool
  is_valid_chain c = linked c.head c.older

-- Blockchain.balance_of
unfoldable pub balance_of : {Self : Type 0} → Text → Chain Self → ℕ
balance_of a c = get_or a 0 c.balances

-- The checks on the genesis allocations, whose values may be of any type.
unfoldable pub all_units : Dict Text Json → Bool
all_units [] = true
all_units ((a, v) ∷ d) = is_units v && all_units d

unfoldable pub amounts : Dict Text Json → Balances
amounts [] = []
amounts ((a, v) ∷ d) = (a, units v) ∷ amounts d

abbrev zeros : Balances → Balances
zeros [] = []
zeros ((a, n) ∷ d) = (a, 0) ∷ zeros d

-- Blockchain.GENESIS_PREV
abbrev pub genesis_prev : Text
genesis_prev = text "0000000000000000000000000000000000000000000000000000000000000000"

module _ ⦃p : Primitives⦄ where
  unfoldable pub genesis_block : Json → Result Block
  unfolding post_init
  genesis_block timestamp = post_init (record {
    index = 0;
    previous_hash = genesis_prev;
    timestamp = timestamp;
    transactions = [];
    validator = text "genesis";
    nonce = num 0;
    root = [];
    proposer_pubkey = [];
    validator_sig = [];
  })

  -- Blockchain.__init__. The third test of the source, for a negative amount, repeats the first.
  unfoldable pub init_chain : {Self : Type 0} → Dict Text Json → Json → Self → Result (Chain Self)
  unfolding all_units amounts genesis_block
  init_chain allocations timestamp self = do
    raise_if (not (all_units allocations)) bad_allocation
    raise_if (not (eqb (total (amounts allocations)) max_supply_units)) wrong_supply
    genesis ← genesis_block timestamp
    ok (record {
      balances = amounts allocations;
      nonces = zeros (amounts allocations);
      head = genesis;
      older = [];
      self = self;
    })

-- The base chain adds nothing.
abbrev pub base_hooks : Hooks (Unit {0}) (Unit {0})
base_hooks = record {
  check_proposer = λ c block. ok tt;
  snapshot_aux = λ self. tt;
  apply_block_pre = λ self block w. w;
  apply_tx = λ self tx block w. transfer tx block w;
  check_supply = λ w. raise_if (not (eqb (total w.balances) max_supply_units)) supply_violated;
  commit_aux = λ aux self. tt;
}
