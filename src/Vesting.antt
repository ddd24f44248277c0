-- ===== src/Vesting.antt =====
-- vesting.py: linear release with a cliff, as a function of the block height.
pub mod Schedule
use mindees_blockchain.Prelude.{ℕ, ◌+◌, ◌-◌, ◌*◌, ◌/◌, leb, ltb, eqb, if◌then◌else◌}

unfoldable pub vested : ℕ → ℕ → ℕ → ℕ → ℕ → ℕ
vested total start cliff duration height =
    if eqb duration 0
    then total
    else if ltb height (start + cliff)
    then 0
    else if leb (start + duration) height
    then total
    else total * (height - start) / duration

unfoldable pub locked : ℕ → ℕ → ℕ → ℕ → ℕ → ℕ
unfolding vested
locked total start cliff duration height = total - vested total start cliff duration height
