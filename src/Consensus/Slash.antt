-- ===== src/Consensus/Slash.antt =====
-- ProofOfStakeChain._apply_slash: the confiscation of a proven offender's bonded units.
use mindees_blockchain.Prelude.{
  ℕ, ◌+◌, ◌-◌, ◌*◌, ◌/◌, Bool, false, some, [], Text, text, ◌==◌, Text_eq, ltb, not, if◌then◌else◌,
}
use mindees_blockchain.Dict.{get_or, put, erase, credit, member, add}
use mindees_blockchain.Json.{Json, str, Fields, lookup, units, truthy}
use mindees_blockchain.Primitives.{Primitives}
use mindees_blockchain.Core.Transaction.{Transaction}
use mindees_blockchain.Core.Block.{Block}
use mindees_blockchain.Network.Codec.{decode_tx, decode_block}
use mindees_blockchain.Consensus.State.{
  Offense, block_fault, vote_fault, Offense_eq, Aux, Config, PosWork, bonded_in, debit,
}
use mindees_blockchain.Consensus.Evidence.{load_json, verify_equivocation, verify_vote_fault}
use mindees_blockchain.Result.{
  Result, ok, invalid, key_error, raise_if, or_raise, ◌>>=◌, ◌>>◌, no_evidence, no_treasury,
  already_slashed, insufficient_funds,
}

abbrev pub reporter_bps : ℕ
reporter_bps = 500

-- `data.get("kind") == "vote"`
unfoldable pub is_vote_kind : Fields → Bool
is_vote_kind d = elim (lookup (text "kind") d) [ some (str k) ↦ k == text "vote" | _ ↦ false ]

module _ ⦃p : Primitives⦄ where
  abbrev read_vote_fault : Json → Fields → Result (Text × Offense)
  read_vote_fault a d = do
    tx_a ← decode_tx a
    b ← or_raise (lookup (text "b") d) key_error
    tx_b ← decode_tx b
    found ← verify_vote_fault tx_a tx_b
    ok (found.0, vote_fault found.1)

  abbrev read_equivocation : Json → Fields → Result (Text × Offense)
  read_equivocation a d = do
    block_a ← decode_block a
    b ← or_raise (lookup (text "b") d) key_error
    block_b ← decode_block b
    found ← verify_equivocation block_a block_b
    ok (found.0, block_fault found.0 found.1)

  -- The offender and the key of the offense. `data["a"]` raises KeyError where it is missing.
  unfoldable pub read_offense : Fields → Result (Text × Offense)
  unfolding is_vote_kind
  read_offense d = do
    a ← or_raise (lookup (text "a") d) key_error
    if is_vote_kind d then read_vote_fault a d else read_equivocation a d

-- Active stake and what is still unbonding.
unfoldable pub bonded_of : Text → Aux → ℕ
unfolding bonded_in
bonded_of a aux = get_or a 0 aux.stakes + bonded_in (get_or a [] aux.unbonding)

unfoldable pub reporter_share : ℕ → ℕ
reporter_share bonded = bonded * reporter_bps / 10000

-- The reporter, or the treasury where the offender reports itself.
unfoldable pub beneficiary : Text → Text → Text → Text
beneficiary reporter offender treasury = if reporter == offender then treasury else reporter

-- The bonded units leave the offender, and go to the beneficiary and the treasury.
unfoldable pub confiscate : Text → Text → Text → Offense → PosWork → PosWork
unfolding bonded_of reporter_share beneficiary
confiscate reporter offender treasury key w =
    let bonded = bonded_of offender w.aux in
    record w {
      balances =
          credit treasury (bonded - reporter_share bonded)
            (credit (beneficiary reporter offender treasury) (reporter_share bonded) w.balances);
      aux = record (w.aux) {
        stakes = erase offender w.aux.stakes;
        unbonding = erase offender w.aux.unbonding;
        slashed = add key w.aux.slashed;
        slashed_addrs = add offender w.aux.slashed_addrs;
      };
    }

-- What follows the evidence: the fee, the confiscation and the nonce.
unfoldable pub settle_slash : Text → Text × Offense → Transaction → Block → PosWork → Result PosWork
unfolding debit
settle_slash treasury (offender, key) tx block w = do
  raise_if (member key w.aux.slashed) already_slashed
  raise_if (ltb (get_or tx.sender 0 w.balances) (units tx.fee)) insufficient_funds
  paid ← debit tx.sender (units tx.fee) w.balances
  let w' =
      confiscate tx.sender offender treasury key
        (record w { balances = credit block.validator (units tx.fee) paid })
  ok (record w' { nonces = put tx.sender (units tx.nonce + 1) w'.nonces })

module _ ⦃p : Primitives⦄ where
  unfoldable pub apply_slash : Config → Transaction → Block → PosWork → Result PosWork
  apply_slash cfg tx block w = do
    raise_if (not (truthy tx.evidence)) no_evidence
    treasury ← or_raise cfg.treasury_address (invalid no_treasury)
    d ← load_json tx.evidence
    found ← read_offense d
    settle_slash treasury found tx block w
