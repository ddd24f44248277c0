-- ===== src/Consensus/Evidence.antt =====
-- consensus.py: the parsing and verification of evidence. Two blocks prove an equivocation, two
-- finality votes a double or a surround vote.
use mindees_blockchain.Prelude.{
  ℕ, ℤ, pos, int_eq, int_lt, Bool, ◌&&◌, ◌||◌, Option, none, some, Text, text, ◌==◌, Text_eq,
  text_lt, eqb, not, if◌then◌else◌,
}
use mindees_blockchain.Json.{Json, str, int, bool, arr, obj, nil, cons, Fields, lookup, truthy}
use mindees_blockchain.Primitives.{Primitives, Bytes}
use mindees_blockchain.Core.Encoding.{hex, from_hex, sha256, canonical, address_from_public_key}
use mindees_blockchain.Core.Signature.{verify_signature}
use mindees_blockchain.Core.Transaction.{Transaction, txid, is_valid, vote_sentinel}
use mindees_blockchain.Core.Block.{Block, hash}
use mindees_blockchain.Network.Codec.{as_text}
use mindees_blockchain.Result.{
  Result, ok, err, invalid, value_error, ill_typed, raise_if, or_raise, ◌>>=◌, ◌>>◌, malformed_hex,
  malformed_json, evidence_not_object, evidence_heights, evidence_parents, evidence_validators,
  evidence_same_block, missing_signature, proposer_key_mismatch, bad_block_signature,
  fault_invalid_tx, fault_not_votes, fault_voters, fault_none, vote_field_missing,
}

-- consensus._hexbytes
unfoldable pub hexbytes : Text → Result Bytes
hexbytes s = or_raise (from_hex s) (invalid malformed_hex)

module _ ⦃p : Primitives⦄ where
  abbrev as_object : Option Json → Result Fields
  as_object none = err (invalid malformed_json)
  as_object (some (obj d)) = ok d
  as_object (some _) = err (invalid evidence_not_object)

  -- consensus._load_json; json.loads raises TypeError on what is no text
  unfoldable pub load_json : Json → Result Fields
  load_json (str s) = as_object (p.loads s)
  load_json _ = err (invalid malformed_json)

  -- The block is sealed by the key of the validator that it names.
  unfoldable pub authenticated : Block → Result (Unit {0})
  unfolding hexbytes
  authenticated b = do
    raise_if (not (truthy (str b.proposer_pubkey) && truthy (str b.validator_sig)))
        missing_signature
    key ← hexbytes b.proposer_pubkey
    raise_if (not (address_from_public_key key == b.validator)) proposer_key_mismatch
    digest ← or_raise (from_hex (hash b)) value_error
    sig ← hexbytes b.validator_sig
    raise_if (not (verify_signature key digest sig)) bad_block_signature

  -- (offender, height)
  unfoldable pub verify_equivocation : Block → Block → Result (Text × ℕ)
  verify_equivocation a b = do
    raise_if (not (eqb a.index b.index)) evidence_heights
    raise_if (not (a.previous_hash == b.previous_hash)) evidence_parents
    raise_if (not (a.validator == b.validator)) evidence_validators
    raise_if (hash a == hash b) evidence_same_block
    authenticated a
    authenticated b
    ok (a.validator, a.index)

-- The link of a finality vote: source and target checkpoints, each a hash and a height.
pub record Link : Type 0 where
  pub s : Text
  pub sh : ℕ
  pub t : Text
  pub th : ℕ

-- The link that vote evidence names, whose heights nobody has tested: they may be negative.
pub record Claim : Type 0 where
  pub s : Text
  pub sh : ℤ
  pub t : Text
  pub th : ℤ

-- What a vote for a link between checkpoints names.
abbrev pub claim : Link → Claim
claim l = record { s = l.s; sh = pos l.sh; t = l.t; th = pos l.th }

-- Same target height, and another target or source.
unfoldable pub is_double : Claim → Claim → Bool
is_double a b = int_eq a.th b.th && (not (a.t == b.t) || not (a.s == b.s))

-- One link lies strictly inside the other.
unfoldable pub is_surround : Claim → Claim → Bool
is_surround a b = (int_lt a.sh b.sh && int_lt b.th a.th) || (int_lt b.sh a.sh && int_lt a.th b.th)

-- A height that Python compares as an integer; True and False are 1 and 0.
abbrev as_int : Json → Result ℤ
as_int (int z) = ok z
as_int (bool b) = ok (pos (if b then 1 else 0))
as_int _ = err ill_typed

-- The link of vote evidence. Hashes that are no texts and heights that are no integers are
-- `ill_typed` here, where the source compares them as they are.
unfoldable pub fault_link : Fields → Result Claim
fault_link d = do
  s ← or_raise (lookup (text "s") d) (invalid vote_field_missing)
  sh ← or_raise (lookup (text "sh") d) (invalid vote_field_missing)
  t ← or_raise (lookup (text "t") d) (invalid vote_field_missing)
  th ← or_raise (lookup (text "th") d) (invalid vote_field_missing)
  s ← as_text s
  sh ← as_int sh
  t ← as_text t
  th ← as_int th
  ok (record { s = s; sh = sh; t = t; th = th })

module _ ⦃p : Primitives⦄ where
  -- `sorted([tx_a.txid, tx_b.txid])` as JSON
  abbrev pub sorted_ids : Text → Text → Json
  sorted_ids a b =
      if text_lt b a
      then arr (cons (str b) (cons (str a) nil))
      else arr (cons (str a) (cons (str b) nil))

  unfoldable pub offense_id : Transaction → Transaction → Text
  offense_id a b = hex (sha256 (canonical (sorted_ids (txid a) (txid b))))

  -- (offender, offense id)
  unfoldable pub verify_vote_fault : Transaction → Transaction → Result (Text × Text)
  unfolding is_double is_surround
  verify_vote_fault a b = do
    raise_if (not (is_valid a) || not (is_valid b)) fault_invalid_tx
    raise_if (not (a.recipient == vote_sentinel) || not (b.recipient == vote_sentinel))
        fault_not_votes
    raise_if (not (a.sender == b.sender)) fault_voters
    da ← load_json a.evidence
    db ← load_json b.evidence
    la ← fault_link da
    lb ← fault_link db
    raise_if (not (is_double la lb || is_surround la lb)) fault_none
    ok (a.sender, offense_id a b)
