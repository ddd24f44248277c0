-- ===== src/Core/Transaction.antt =====
-- core.Transaction: the record, its digest, signing, and stateless validity. The amounts, the nonce
-- and the evidence keep the type that the wire gave them, because `is_valid` tests it.
pub mod Typed
use mindees_blockchain.Prelude.{
  Bool, true, false, ◌&&◌, ◌||◌, Option, none, some, [], Text, text, ◌==◌, Text_eq, eqb, not,
  if◌then◌else◌,
}
use mindees_blockchain.Json.{Json, str, obj, end, field, is_units, units, truthy, as_str}
use mindees_blockchain.Primitives.{Primitives, Bytes}
use mindees_blockchain.Core.Encoding.{hex, from_hex, sha256, canonical, address_from_public_key}
use mindees_blockchain.Core.Signature.{
  Wallet, address, public_key_hex, sign_bytes, verify_signature,
}
use mindees_blockchain.Result.{Result, ok, not_owner, raise_if, ◌>>=◌, ◌>>◌}

-- Reserved recipients: a transaction to one of these is an operation, not a payment.
abbrev pub stake_sentinel : Text
stake_sentinel = text "__MINDEES_STAKE__"

abbrev pub unstake_sentinel : Text
unstake_sentinel = text "__MINDEES_UNSTAKE__"

abbrev pub slash_sentinel : Text
slash_sentinel = text "__MINDEES_SLASH__"

abbrev pub vote_sentinel : Text
vote_sentinel = text "__MINDEES_VOTE__"

pub record Transaction : Type 0 where
  pub sender : Text
  pub recipient : Text
  pub amount : Json
  pub fee : Json
  pub nonce : Json
  pub public_key : Text
  pub signature : Text
  pub evidence : Json

-- A transaction before it is signed, with the defaults of the dataclass.
abbrev pub unsigned : Text → Text → Json → Json → Json → Json → Transaction
unsigned sender recipient amount fee nonce evidence = record {
  sender = sender;
  recipient = recipient;
  amount = amount;
  fee = fee;
  nonce = nonce;
  public_key = [];
  signature = [];
  evidence = evidence;
}

module _ ⦃p : Primitives⦄ where
  unfoldable pub signing_payload : Transaction → Bytes
  signing_payload tx = canonical (
      obj (
        field (text "sender") (str tx.sender) (
          field (text "recipient") (str tx.recipient) (
            field (text "amount") tx.amount (
              field (text "fee") tx.fee (
                field (text "nonce") tx.nonce (
                  field (text "public_key") (str tx.public_key)
                    (field (text "evidence") tx.evidence end))))))))

  unfoldable pub sign : Wallet → Transaction → Result Transaction
  sign wallet tx = do
    raise_if (not (address wallet == tx.sender)) not_owner
    let tx' = record tx { public_key = public_key_hex wallet }
    sig ← sign_bytes wallet (signing_payload tx')
    ok (record tx' { signature = hex sig })

  unfoldable pub txid : Transaction → Text
  txid tx = hex (
      sha256 (
        canonical (
          obj (
            field (text "sender") (str tx.sender) (
              field (text "recipient") (str tx.recipient) (
                field (text "amount") tx.amount (
                  field (text "fee") tx.fee (
                    field (text "nonce") tx.nonce (
                      field (text "public_key") (str tx.public_key) (
                        field (text "signature") (str tx.signature)
                          (field (text "evidence") tx.evidence end)))))))))))

  -- The numbers are plain and not negative.
  unfoldable pub has_units : Transaction → Bool
  has_units tx = is_units tx.amount && (is_units tx.fee && is_units tx.nonce)

  -- A slash or a vote moves nothing and carries evidence; any other moves a positive amount.
  unfoldable pub has_shape : Transaction → Bool
  has_shape tx =
      if tx.recipient == slash_sentinel || tx.recipient == vote_sentinel
      then eqb (units tx.amount) 0 && truthy tx.evidence
      else not (eqb (units tx.amount) 0)

  abbrev is_str : Option Text → Bool
  is_str none = false
  is_str (some s) = true

  unfoldable pub has_fields : Transaction → Bool
  has_fields tx =
      is_str (as_str tx.evidence) && (truthy (str tx.public_key) && truthy (str tx.signature))

  abbrev key_signs : Transaction → Option Bytes → Option Bytes → Bool
  key_signs tx (some key) (some sig) =
      if not (address_from_public_key key == tx.sender)
      then false
      else verify_signature key (signing_payload tx) sig
  key_signs tx _ _ = false

  unfoldable pub is_valid : Transaction → Bool
  unfolding has_units has_shape has_fields
  is_valid tx =
      if not (has_units tx)
      then false
      else if not (has_shape tx)
      then false
      else if not (has_fields tx)
      then false
      else key_signs tx (from_hex tx.public_key) (from_hex tx.signature)
