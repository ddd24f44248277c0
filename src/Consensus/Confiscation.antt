-- ===== src/Consensus/Confiscation.antt =====
-- What a slash takes and where it goes.
use mindees_blockchain.Prelude.{
  ℕ, ◌+◌, ◌-◌, ◌*◌, ◌/◌, ◌≡◌, ◌≢◌, true, false, [], Text, Text_eq, arith, ◌≤◌, text_eq_iff, refl,
  ◌==◌, if◌then◌else◌,
}
use mindees_blockchain.Dict.{
  IsUnique, get_or, credit, member, get_or-put, get_or-erase_self, get_or-erase_ne, member-add_self,
}
use mindees_blockchain.Json.{units}
use mindees_blockchain.Core.Transaction.{Transaction}
use mindees_blockchain.Core.Block.{Block}
use mindees_blockchain.Core.Chain.{Balances}
use mindees_blockchain.Consensus.State.{PosWork, Offense, Offense_eq, debit, bonded_in}
use mindees_blockchain.Consensus.Slash.{
  settle_slash, confiscate, bonded_of, reporter_share, beneficiary,
}
use mindees_blockchain.Result.{ok, Returns}

-- What each account gains by a payment.
get_or-credit :
    (a b : Text) (n : ℕ) (d : Balances)
    → get_or a 0 (credit b n d) ≡ get_or a 0 d + (if a == b then n else 0)
unfolding credit
get_or-credit a b n d = ground (arith, get_or-put a b (get_or b 0 d + n) 0 d, text_eq_iff a b)

-- What each account loses by a covered payment.
get_or-debit :
    (a b : Text) (n : ℕ) (d : Balances)
    → n ≤ get_or b 0 d
    → Returns (λ d'. get_or a 0 d' + (if a == b then n else 0) ≡ get_or a 0 d) (debit b n d)
unfolding debit
get_or-debit a b n d le = ground (arith, get_or-put a b (get_or b 0 d - n) 0 d, text_eq_iff a b)

confiscate_pays :
    (a reporter offender treasury : Text) (key : Offense) (w : PosWork)
    → let bonded =
        get_or offender 0 w.aux.stakes + bonded_in (get_or offender [] w.aux.unbonding) in
      get_or a 0 (confiscate reporter offender treasury key w).balances
      ≡ get_or a 0 w.balances
        + (if a == (if reporter == offender then treasury else reporter)
            then bonded * 500 / 10_000
            else 0)
        + (if a == treasury then bonded - bonded * 500 / 10_000 else 0)
unfolding confiscate bonded_of reporter_share beneficiary
confiscate_pays a reporter offender treasury key w = rw (get_or-credit, get_or-credit) refl

module _ (treasury offender : Text) (key : Offense) (tx : Transaction) (block : Block)
    (w : PosWork) where
  -- After a slash nothing of the offender is staked or unbonding, the offender is excluded and the
  -- offense is recorded, which it was not before; no other stake has changed.
  pub settle_slash_takes :
      (other : Text) {w' : PosWork}
      → IsUnique w.aux.stakes
      → IsUnique w.aux.unbonding
      → other ≢ offender
      → settle_slash treasury (offender, key) tx block w ≡ ok w'
      → (bonded_of offender w'.aux ≡ 0)
        × (member offender w'.aux.slashed_addrs ≡ true)
        × (member key w.aux.slashed ≡ false)
        × (member key w'.aux.slashed ≡ true)
        × (get_or other 0 w'.aux.stakes ≡ get_or other 0 w.aux.stakes)
  unfolding settle_slash confiscate bonded_of bonded_in
  settle_slash_takes other u v ne h = ground (
    arith,
    get_or-erase_self offender 0 w.aux.stakes u,
    get_or-erase_self offender [] w.aux.unbonding v,
    get_or-erase_ne other offender 0 w.aux.stakes ne,
    member-add_self offender w.aux.slashed_addrs,
    member-add_self key w.aux.slashed,
  )

  -- A slash moves these units and no others: the reporter pays the fee, the proposer of the block
  -- gains it; of all that the offender had staked or unbonding, 500 parts in 10,000, rounded down, go
  -- to the reporter, or to the treasury where the offender reports itself, and the rest goes to the
  -- treasury. This gives the balance of every account, also of one in several of these roles.
  pub settle_slash_pays :
      (a : Text) {w' : PosWork}
      → settle_slash treasury (offender, key) tx block w ≡ ok w'
      → let bonded =
          get_or offender 0 w.aux.stakes + bonded_in (get_or offender [] w.aux.unbonding) in
        get_or a 0 w'.balances + (if a == tx.sender then units tx.fee else 0)
        ≡ get_or a 0 w.balances
          + (if a == block.validator then units tx.fee else 0)
          + (if a == (if tx.sender == offender then treasury else tx.sender)
              then bonded * 500 / 10_000
              else 0)
          + (if a == treasury then bonded - bonded * 500 / 10_000 else 0)
  unfolding settle_slash
  settle_slash_pays a h = grind (
    arith,
    λ (v : PosWork). confiscate_pays a tx.sender offender treasury key v,
    λ (n : ℕ) (d : Balances). get_or-credit a block.validator n d,
    get_or-debit a tx.sender (units tx.fee) w.balances,
  )
