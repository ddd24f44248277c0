-- ===== src/Consensus/Holdings.antt =====
-- How each kind of transaction changes what an address holds.
use mindees_blockchain.Prelude.{
  ℕ, ◌+◌, ◌-◌, ◌≤◌, ◌≡◌, List, [], ◌∷◌, ◌++◌, Text, Text_eq, text_eq_iff, ◌==◌, arith,
  if◌then◌else◌,
}
use mindees_blockchain.Dict.{
  Dict, IsUnique, get_or, put, erase, credit, get_or-put_self, get_or-put_ne, get_or-erase_self,
  get_or-erase_ne, put-IsUnique,
}
use mindees_blockchain.Json.{units}
use mindees_blockchain.Core.Transaction.{Transaction}
use mindees_blockchain.Core.Block.{Block}
use mindees_blockchain.Core.Chain.{Balances, transfer}
use mindees_blockchain.Consensus.State.{Bond, Config, PosWork, bonded_in}
use mindees_blockchain.Consensus.Evidence.{Link}
use mindees_blockchain.Consensus.Stake.{
  apply_stake, apply_unstake, drop_validator, release_stake, push_bond, holding,
}
use mindees_blockchain.Consensus.Vote.{cast_vote, record_vote}
use mindees_blockchain.Consensus.Supply.Transactions.{release_stake_stakes, justify_bonds}
use mindees_blockchain.Consensus.Supply.Queues.{bonded_in-append}
use mindees_blockchain.Consensus.Accounts.{move}
use mindees_blockchain.Result.{Result, Returns}

pub get_or-credit :
    (a k : Text) (n : ℕ) (d : Balances)
    → get_or a 0 (credit k n d) ≡ get_or a 0 d + (if a == k then n else 0)
unfolding credit
get_or-credit a k n d = ground (
  arith,
  text_eq_iff a k,
  get_or-put_self k (get_or k 0 d + n) 0 d,
  get_or-put_ne a k (get_or k 0 d + n) 0 d,
)

pub get_or-lower :
    (a k : Text) (n : ℕ) (d : Balances)
    → get_or a 0 (put k (get_or k 0 d - n) d) ≡ get_or a 0 d - (if a == k then n else 0)
get_or-lower a k n d = ground (
  arith,
  text_eq_iff a k,
  get_or-put_self k (get_or k 0 d - n) 0 d,
  get_or-put_ne a k (get_or k 0 d - n) 0 d,
)

get_or-erase_zero :
    (a k : Text) (d : Balances)
    → IsUnique d
    → get_or k 0 d ≡ 0
    → get_or a 0 (erase k d) ≡ get_or a 0 d
get_or-erase_zero a k d u h =
    ground (arith, text_eq_iff a k, get_or-erase_self k 0 d u, get_or-erase_ne a k 0 d)

bonded_in-push :
    (a k : Text) (b : Bond) (u : Dict Text (List Bond))
    → bonded_in (get_or a [] (push_bond k b u))
      ≡ bonded_in (get_or a [] u) + (if a == k then b.amount else 0)
unfolding push_bond bonded_in
bonded_in-push a k b u = ground (
  arith,
  text_eq_iff a k,
  get_or-put_self k (get_or k [] u ++ b ∷ []) [] u,
  get_or-put_ne a k (get_or k [] u ++ b ∷ []) [] u,
  bonded_in-append (get_or k [] u) (b ∷ []),
)

abbrev pub Holds : Text → ℕ → Result PosWork → Type 0
Holds a n r = Returns (λ w. holding a w ≡ n) r

module _ (tx : Transaction) (block : Block) (w : PosWork) (a : Text) where
  pub transfer-holding :
      Holds a
        (move tx.sender block.validator
          (units tx.fee)
          (move tx.sender tx.recipient (units tx.amount) (λ b. holding b w))
          a)
        (transfer tx block w)
  unfolding transfer holding move
  transfer-holding =
      let cost = units tx.amount + units tx.fee in
      let debited = put tx.sender (get_or tx.sender 0 w.balances - cost) w.balances in
      ground (
        arith,
        text_eq_iff a tx.sender,
        get_or-lower a tx.sender cost w.balances,
        get_or-credit a tx.recipient (units tx.amount) debited,
        get_or-credit a block.validator (units tx.fee)
            (credit tx.recipient (units tx.amount) debited),
      )

  pub apply_stake-holding :
      Holds a
        (move tx.sender block.validator (units tx.fee) (λ b. holding b w) a)
        (apply_stake tx block w)
  unfolding apply_stake holding move
  apply_stake-holding = grind (
    arith,
    text_eq_iff a tx.sender,
    get_or-lower a tx.sender (units tx.amount + units tx.fee) w.balances,
    get_or-credit a tx.sender (units tx.amount),
    get_or-credit a block.validator (units tx.fee),
  )

drop_validator-get_or :
    (a k : Text) (stakes : Balances)
    → IsUnique stakes
    → Returns (λ s. get_or a 0 s ≡ get_or a 0 stakes) (drop_validator k stakes)
unfolding drop_validator
drop_validator-get_or a k stakes u = ground (arith, get_or-erase_zero a k stakes u)

release_stake-holding :
    (cfg : Config) (tx : Transaction) (block : Block) (w : PosWork) (a : Text)
    → holding a (release_stake cfg tx block w)
      ≡ holding a w + (if a == tx.sender then units tx.amount else 0)
unfolding release_stake holding
release_stake-holding cfg tx block w a = ground (
  arith,
  get_or-credit a tx.sender (units tx.amount) w.balances,
  bonded_in-push a tx.sender
      (record {
        amount = units tx.amount;
        bonded_at = block.index;
        released_at = block.index + cfg.unbonding_blocks;
      })
      w.aux.unbonding,
)

module _ (cfg : Config) (tx : Transaction) (block : Block) (w : PosWork) (a : Text) where
  pub apply_unstake-holding :
      IsUnique w.aux.stakes
      → Holds a
          (move tx.sender block.validator (units tx.fee) (λ b. holding b w) a)
          (apply_unstake cfg tx block w)
  unfolding apply_unstake holding move
  apply_unstake-holding u =
      let paid = put tx.sender (get_or tx.sender 0 w.balances - units tx.fee) w.balances in
      let left = get_or tx.sender 0 w.aux.stakes - units tx.amount in
      let lowered = put tx.sender left w.aux.stakes in
      let w1 : PosWork = record {
        balances = paid;
        nonces = w.nonces;
        aux = record (w.aux) { stakes = lowered };
      } in
      let w2 = release_stake cfg tx block w1 in
      ground (
        arith,
        text_eq_iff a tx.sender,
        release_stake_stakes cfg tx block w1,
        release_stake-holding cfg tx block w1 a,
        drop_validator-get_or a tx.sender lowered (put-IsUnique tx.sender left w.aux.stakes u),
        get_or-lower a tx.sender (units tx.fee) w.balances,
        get_or-lower a tx.sender (units tx.amount) w.aux.stakes,
        get_or-credit a block.validator (units tx.fee) w2.balances,
      )

  pub cast_vote-holding :
      (l : Link)
      → units tx.fee ≤ get_or tx.sender 0 w.balances
      → Holds a
          (move tx.sender block.validator (units tx.fee) (λ b. holding b w) a)
          (cast_vote cfg l tx block w)
  unfolding cast_vote holding move record_vote
  cast_vote-holding l funded = grind (
    arith,
    text_eq_iff a tx.sender,
    justify_bonds,
    get_or-lower a tx.sender (units tx.fee) w.balances,
    get_or-credit a block.validator (units tx.fee),
  )
