-- ===== src/Consensus/Vote.antt =====
-- ProofOfStakeChain._apply_vote: a finality vote, justification and finalization.
use mindees_blockchain.Prelude.{
  ℕ, ◌+◌, ◌*◌, ◌%◌, Bool, ◌&&◌, ◌||◌, Option, some, List, [], ◌∷◌, Text, text, ◌==◌, ℕ_eq, Text_eq,
  pair_eq, ltb, leb, eqb, not, if◌then◌else◌,
}
use mindees_blockchain.Dict.{get, get_or, contains, put, credit, member, add}
use mindees_blockchain.Json.{Json, Fields, lookup, is_units, units, as_str}
use mindees_blockchain.Primitives.{Primitives}
use mindees_blockchain.Core.Transaction.{Transaction}
use mindees_blockchain.Core.Block.{Block}
use mindees_blockchain.Core.Chain.{Balances}
use mindees_blockchain.Consensus.State.{Aux, Config, PosWork, debit}
use mindees_blockchain.Consensus.Evidence.{Link, load_json}
use mindees_blockchain.Result.{
  Result, ok, err, invalid, key_error, raise_if, or_raise, ◌>>=◌, ◌>>◌, insufficient_funds,
  vote_field_missing, vote_field_type, vote_unordered, vote_no_checkpoint, vote_wrong_height,
  vote_unjustified, vote_slashed, vote_no_stake, vote_conflict,
}

abbrev typed_link : Option Text → Json → Option Text → Json → Result Link
typed_link (some s) sh (some t) th =
    if is_units sh && is_units th
    then ok (record { s = s; sh = units sh; t = t; th = units th })
    else err (invalid vote_field_type)
typed_link _ sh _ th = err (invalid vote_field_type)

unfoldable pub vote_link : Fields → Result Link
vote_link d = do
  s ← or_raise (lookup (text "s") d) (invalid vote_field_missing)
  sh ← or_raise (lookup (text "sh") d) (invalid vote_field_missing)
  t ← or_raise (lookup (text "t") d) (invalid vote_field_missing)
  th ← or_raise (lookup (text "th") d) (invalid vote_field_missing)
  typed_link (as_str s) sh (as_str t) th

-- The tests on the link and the voter, in the order of the source.
unfoldable pub check_vote : Config → Link → Transaction → PosWork → Result (Unit {0})
check_vote cfg l tx w = do
  raise_if (not (eqb (l.sh % cfg.epoch) 0) || not (eqb (l.th % cfg.epoch) 0) || leb l.th l.sh)
      vote_unordered
  raise_if (not (contains l.s w.aux.ffg_stake) || not (contains l.t w.aux.ffg_stake))
      vote_no_checkpoint
  s_height ← or_raise (get l.s w.aux.ffg_height) key_error
  t_height ← or_raise (get l.t w.aux.ffg_height) key_error
  raise_if (not (eqb s_height l.sh) || not (eqb t_height l.th)) vote_wrong_height
  raise_if (not (member l.s w.aux.justified_parent)) vote_unjustified
  raise_if (member tx.sender w.aux.slashed_addrs) vote_slashed
  raise_if (eqb (get_or tx.sender 0 (get_or l.s [] w.aux.ffg_stake)) 0) vote_no_stake
  raise_if (not (get_or (tx.sender, l.th) (l.s, l.t) w.aux.ffg_seen_target == (l.s, l.t)))
      vote_conflict
  raise_if (ltb (get_or tx.sender 0 w.balances) (units tx.fee)) insufficient_funds

-- `sum(snapshot.get(v, 0) for v in voters if v not in slashed_addrs)`
unfoldable pub voted_stake : Balances → List Text → List Text → ℕ
voted_stake snapshot slashed [] = 0
voted_stake snapshot slashed (v ∷ vs) =
    (if member v slashed then 0 else get_or v 0 snapshot) + voted_stake snapshot slashed vs

-- `sum(amt for a, amt in snapshot.items() if a not in slashed_addrs)`
unfoldable pub quorum_stake : List Text → Balances → ℕ
quorum_stake slashed [] = 0
quorum_stake slashed ((a, n) ∷ d) = (if member a slashed then 0 else n) + quorum_stake slashed d

-- FFG_DEN * voted >= FFG_NUM * total
unfoldable pub is_supermajority : ℕ → ℕ → Bool
is_supermajority voted total = ltb 0 total && leb (2 * total) (3 * voted)

unfoldable pub record_vote : Link → Text → Aux → Aux
record_vote l voter aux = record aux {
  ffg_votes = put (l.s, l.t) (add voter (get_or (l.s, l.t) [] aux.ffg_votes)) aux.ffg_votes;
  ffg_seen_target = put (voter, l.th) (l.s, l.t) aux.ffg_seen_target;
}

-- The source is final if the target is its direct child and it lies above what is final already.
unfoldable pub finalize : ℕ → Link → Text × ℕ → Text × ℕ
finalize epoch l final = if eqb l.th (l.sh + epoch) && ltb final.1 l.sh then (l.s, l.sh) else final

unfoldable pub justify : Config → Link → Aux → Aux
unfolding voted_stake quorum_stake is_supermajority finalize
justify cfg l aux =
    let snapshot = get_or l.s [] aux.ffg_stake in
    let voters = get_or (l.s, l.t) [] aux.ffg_votes in
    if is_supermajority (voted_stake snapshot aux.slashed_addrs voters)
      (quorum_stake aux.slashed_addrs snapshot)
    then record aux {
      justified = add l.t aux.justified;
      finalized = finalize cfg.epoch l aux.finalized;
    }
    else aux

-- The vote once it has passed: the fee, the nonce, the record, and what it justifies.
unfoldable pub cast_vote : Config → Link → Transaction → Block → PosWork → Result PosWork
unfolding debit
cast_vote cfg l tx block w = do
  paid ← debit tx.sender (units tx.fee) w.balances
  ok (record {
    balances = credit block.validator (units tx.fee) paid;
    nonces = put tx.sender (units tx.nonce + 1) w.nonces;
    aux = justify cfg l (record_vote l tx.sender w.aux);
  })

module _ ⦃p : Primitives⦄ where
  unfoldable pub apply_vote : Config → Transaction → Block → PosWork → Result PosWork
  unfolding vote_link
  apply_vote cfg tx block w = do
    d ← load_json tx.evidence
    l ← vote_link d
    check_vote cfg l tx w
    cast_vote cfg l tx block w
