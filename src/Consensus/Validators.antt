-- ===== src/Consensus/Validators.antt =====
-- The set of validators: no entry is empty, and only a slash can leave it without anyone.
use mindees_blockchain.Prelude.{
  ℕ, ◌+◌, ◌-◌, ◌≤◌, ◌<◌, ◌≡◌, true, [], ◌∷◌, Text, Text_eq, arith, length, All, zero, suc,
  Bool-cases, inl, inr,
}
use mindees_blockchain.Dict.{
  IsUnique, get_or, put, erase, credit, contains, put-IsUnique, erase-IsUnique, get_or-put_self,
}
use mindees_blockchain.Json.{units}
use mindees_blockchain.Core.Transaction.{Transaction}
use mindees_blockchain.Core.Block.{Block}
use mindees_blockchain.Core.Chain.{Balances, transfer}
use mindees_blockchain.Consensus.State.{Config, PosWork, Offense, debit}
use mindees_blockchain.Consensus.Evidence.{Link}
use mindees_blockchain.Consensus.Stake.{apply_stake, apply_unstake, drop_validator}
use mindees_blockchain.Consensus.Vote.{cast_vote, justify, record_vote}
use mindees_blockchain.Consensus.Slash.{settle_slash, confiscate}
use mindees_blockchain.Consensus.Supply.Transactions.{release_stake_stakes}
use mindees_blockchain.Result.{Result, ◌>>=◌, Returns}

-- Each validator stands once in the dictionary, with a positive stake.
unfoldable pub ValidStakes : Balances → Type 0
ValidStakes s = IsUnique s × All (λ (e : Text × ℕ). 0 < e.1) s

-- Somebody has a stake.
unfoldable pub AreStaffed : Balances → Type 0
unfolding ValidStakes
AreStaffed s = ValidStakes s × (0 < length s)

put-positive :
    (k : Text) (n : ℕ) (d : Balances)
    → 0 < n
    → All (λ (e : Text × ℕ). 0 < e.1) d
    → All (λ (e : Text × ℕ). 0 < e.1) (put k n d)
unfolding put
put-positive k n [] pos h = (pos, tt)
put-positive k n ((j, m) ∷ d) pos h = ground (arith, put-positive k n d)

erase-positive :
    (k : Text) (d : Balances)
    → All (λ (e : Text × ℕ). 0 < e.1) d
    → All (λ (e : Text × ℕ). 0 < e.1) (erase k d)
unfolding erase
erase-positive k [] h = tt
erase-positive k ((j, m) ∷ d) h = ground (arith, erase-positive k d)

erase-put :
    (k : Text) (n : ℕ) (d : Balances) → contains k d ≡ true → erase k (put k n d) ≡ erase k d
unfolding erase put contains
erase-put k n [] h = cc
erase-put k n ((j, m) ∷ d) h = ground (arith, erase-put k n d)

length-put_some : (k : Text) (n : ℕ) (d : Balances) → 0 < length (put k n d)
unfolding put
length-put_some k n [] = omega arith
length-put_some k n ((j, m) ∷ d) = ground arith

length-put_old :
    (k : Text) (n : ℕ) (d : Balances) → contains k d ≡ true → length (put k n d) ≡ length d
unfolding put contains
length-put_old k n [] h = cc
length-put_old k n ((j, m) ∷ d) h = ground (arith, length-put_old k n d)

length-erase : (k : Text) (d : Balances) → length d ≤ length (erase k d) + 1
unfolding erase
length-erase k [] = omega arith
length-erase k ((j, m) ∷ d) = ground (arith, length-erase k d)

pub credit-AreStaffed :
    (k : Text) (n : ℕ) (d : Balances) → 0 < n → ValidStakes d → AreStaffed (credit k n d)
unfolding credit AreStaffed
credit-AreStaffed k n d pos (u, h) = (
  (put-IsUnique k (get_or k 0 d + n) d u, put-positive k (get_or k 0 d + n) d (omega arith) h),
  length-put_some k (get_or k 0 d + n) d,
)

drop_validator-kept :
    (k : Text) (s : Balances)
    → 0 < get_or k 0 s
    → AreStaffed s
    → Returns AreStaffed (drop_validator k s)
unfolding drop_validator
drop_validator-kept k s pos h = ground arith

drop_validator-empty :
    (k : Text) (s : Balances)
    → get_or k 0 s ≡ 0
    → ValidStakes (erase k s)
    → Returns AreStaffed (drop_validator k s)
unfolding drop_validator AreStaffed
drop_validator-empty k s none h = ground (arith, length-erase k s)

-- The stakes after a voluntary exit: still valid, and not empty.
lower-AreStaffed :
    (k : Text) (n : ℕ) (d : Balances)
    → contains k d ≡ true
    → ValidStakes d
    → Returns AreStaffed (drop_validator k (put k n d))
unfolding AreStaffed
lower-AreStaffed k zero d old (u, h) =
    drop_validator-empty k (put k 0 d) (get_or-put_self k 0 0 d)
      (rw (erase-put k 0 d old) (erase-IsUnique k d u, erase-positive k d h))
lower-AreStaffed k (suc n) d old (u, h) =
    drop_validator-kept k (put k (suc n) d) (omega (arith, get_or-put_self k (suc n) 0 d)) (
      (put-IsUnique k (suc n) d u, put-positive k (suc n) d (omega arith) h),
      length-put_some k (suc n) d,
    )

debit-AreStaffed :
    (k : Text) (n : ℕ) (d : Balances)
    → ValidStakes d
    → Returns AreStaffed (debit k n d >>= drop_validator k)
unfolding debit
debit-AreStaffed k n d h = elim (Bool-cases (contains k d)) [
  | inl old ↦ rw old (lower-AreStaffed k (get_or k 0 d - n) d old h)
  | inr new ↦ rw new tt
]

erase-ValidStakes : (k : Text) (d : Balances) → ValidStakes d → ValidStakes (erase k d)
unfolding ValidStakes
erase-ValidStakes k d (u, h) = (erase-IsUnique k d u, erase-positive k d h)

abbrev pub Leaves : (Balances → Type 0) → Result PosWork → Type 0
Leaves P r = Returns (λ w. P w.aux.stakes) r

pub apply_stake-AreStaffed :
    (tx : Transaction) (block : Block) (w : PosWork)
    → 0 < units tx.amount
    → ValidStakes w.aux.stakes
    → Leaves AreStaffed (apply_stake tx block w)
unfolding apply_stake
apply_stake-AreStaffed tx block w pos h =
    ground (arith, credit-AreStaffed tx.sender (units tx.amount) w.aux.stakes)

pub apply_unstake-AreStaffed :
    (cfg : Config) (tx : Transaction) (block : Block) (w : PosWork)
    → ValidStakes w.aux.stakes
    → Leaves AreStaffed (apply_unstake cfg tx block w)
unfolding apply_unstake
apply_unstake-AreStaffed cfg tx block w h =
    grind (arith, release_stake_stakes, debit-AreStaffed tx.sender (units tx.amount) w.aux.stakes)

pub settle_slash-ValidStakes :
    (treasury : Text) (found : Text × Offense) (tx : Transaction) (block : Block) (w : PosWork)
    → ValidStakes w.aux.stakes
    → Leaves ValidStakes (settle_slash treasury found tx block w)
unfolding settle_slash confiscate
settle_slash-ValidStakes treasury (offender, key) tx block w h =
    ground (arith, erase-ValidStakes offender w.aux.stakes)

abbrev pub KeepsStakes : PosWork → Result PosWork → Type 0
KeepsStakes w r = Leaves (λ s. s ≡ w.aux.stakes) r

pub transfer-KeepsStakes :
    (tx : Transaction) (block : Block) (w : PosWork) → KeepsStakes w (transfer tx block w)
unfolding transfer
transfer-KeepsStakes tx block w = ground arith

pub cast_vote-KeepsStakes :
    (cfg : Config) (l : Link) (tx : Transaction) (block : Block) (w : PosWork)
    → KeepsStakes w (cast_vote cfg l tx block w)
unfolding cast_vote justify record_vote
cast_vote-KeepsStakes cfg l tx block w = ground arith
