-- ===== src/Vesting/Schedule.antt =====
-- The release schedule: nothing before the cliff, everything at the end, never falling in between.
use mindees_blockchain.Prelude.{ℕ, ◌+◌, ◌-◌, ◌*◌, ◌/◌, ◌≤◌, ◌<◌, ◌≡◌, arith}
use mindees_blockchain.Vesting.{vested, locked}

div_mono : (a b d : ℕ) → 0 < d → a ≤ b → a / d ≤ b / d
div_mono a b d pos h = grind arith

part_le : (t k d : ℕ) → 0 < d → k ≤ d → t * k / d ≤ t
part_le t k d pos h = grind arith

pub vested-le-total : (t s c d h : ℕ) → vested t s c d h ≤ t
unfolding vested
vested-le-total t s c d h = ground (arith, part_le t (h - s) d)

vested_mono : (t s c d h h' : ℕ) → h ≤ h' → vested t s c d h ≤ vested t s c d h'
unfolding vested
vested_mono t s c d h h' le = ground (
  arith,
  part_le t (h - s) d,
  div_mono (t * (h - s)) (t * (h' - s)) d,
  mul_mono t (h - s) (h' - s),
)
  where
    mul_mono : (a b c : ℕ) → b ≤ c → a * b ≤ a * c
    mul_mono a b c le = grind arith

-- What is locked never grows with the height, never exceeds the grant, and with what has vested
-- makes up the grant exactly.
pub locked_schedule :
    (total start cliff duration h h' : ℕ)
    → h ≤ h'
    → (locked total start cliff duration h' ≤ locked total start cliff duration h)
      × (locked total start cliff duration h ≤ total)
      × (vested total start cliff duration h + locked total start cliff duration h ≡ total)
unfolding locked
locked_schedule total start cliff duration h h' le = omega (
  arith,
  vested_mono total start cliff duration h h' le,
  vested-le-total total start cliff duration h,
)

-- A grant with a schedule is locked whole at any height before its cliff, and free at any height
-- from which on both the cliff and the duration have passed.
locked_ends :
    (total start cliff duration early late : ℕ)
    → 0 < duration
    → early < start + cliff
    → start + cliff ≤ late
    → start + duration ≤ late
    → (locked total start cliff duration early ≡ total)
      × (locked total start cliff duration late ≡ 0)
unfolding locked
locked_ends total start cliff duration early late pos before after over =
    (ground arith, ground arith)
