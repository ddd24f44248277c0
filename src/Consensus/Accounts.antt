-- ===== src/Consensus/Accounts.antt =====
-- What the ledger promises its users: every address has an account that holds its liquid, staked and
-- unbonding units together. Payments and fees move units between accounts, and nothing else does.
use mindees_blockchain.Prelude.{
  ℕ, ◌+◌, ◌-◌, Bool, ◌||◌, not, List, [], ◌∷◌, Text, Text_eq, ◌==◌, if◌then◌else◌,
}
use mindees_blockchain.Json.{units}
use mindees_blockchain.Core.Transaction.{
  Transaction, stake_sentinel, unstake_sentinel, slash_sentinel, vote_sentinel,
}
use mindees_blockchain.Core.Block.{Block}

abbrev pub Accounts : Type 0
Accounts = Text → ℕ

unfoldable pub move : Text → Text → ℕ → Accounts → Accounts
move from to n acc a = (acc a - (if a == from then n else 0)) + (if a == to then n else 0)

unfoldable pub is_payment : Transaction → Bool
is_payment tx = not (
    (tx.recipient == stake_sentinel || tx.recipient == unstake_sentinel)
    || (tx.recipient == slash_sentinel || tx.recipient == vote_sentinel))

-- The recipient gets the amount of a payment, and the proposer the fee.
unfoldable pub settle : Text → Transaction → Accounts → Accounts
unfolding move is_payment
settle proposer tx acc =
    move tx.sender proposer (units tx.fee)
      (if is_payment tx then move tx.sender tx.recipient (units tx.amount) acc else acc)

unfoldable pub settle_all : Text → List Transaction → Accounts → Accounts
settle_all proposer [] acc = acc
settle_all proposer (tx ∷ txs) acc = settle_all proposer txs (settle proposer tx acc)

-- The blocks of a run come newest first.
unfoldable pub settle_blocks : List Block → Accounts → Accounts
unfolding settle_all
settle_blocks [] acc = acc
settle_blocks (b ∷ bs) acc = settle_all b.validator b.transactions (settle_blocks bs acc)
