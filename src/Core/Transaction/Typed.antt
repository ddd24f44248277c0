-- ===== src/Core/Transaction/Typed.antt =====
-- What `Transaction.is_valid` establishes, and that it holds of all that a chain contains.
use mindees_blockchain.Prelude.{
  ℕ, pos, negsuc, ◌≡◌, refl, true, ◌||◌, Option, none, some, Text, ◌==◌, Text_eq, eqb, arith,
  text_eq_iff, [],
}
use mindees_blockchain.Json.{
  Json, null, bool, int, float, str, arr, obj, num, is_units, units, as_str,
}
use mindees_blockchain.Primitives.{Primitives, Bytes}
use mindees_blockchain.Core.Encoding.{from_hex, address_from_public_key}
use mindees_blockchain.Core.Signature.{verify_signature}
use mindees_blockchain.Core.Transaction.{
  Transaction, is_valid, key_signs, is_str, signing_payload, slash_sentinel, vote_sentinel,
}

-- The key and the signature that a transaction carries: the key owns the sender's address and has
-- signed the transaction.
pub record IsSigned ⦃p : Primitives⦄ (tx : Transaction) : Type 0 where
  pub key : Bytes
  pub sig : Bytes
  pub has_key : from_hex tx.public_key ≡ some key
  pub has_sig : from_hex tx.signature ≡ some sig
  pub owns : address_from_public_key key ≡ tx.sender
  pub signed : verify_signature key (signing_payload tx) sig ≡ true

-- The numbers are natural numbers, the evidence is text, only a slash or a vote moves nothing.
pub record IsTyped ⦃p : Primitives⦄ (tx : Transaction) : Type 0 where
  pub amount : ℕ
  pub fee : ℕ
  pub nonce : ℕ
  pub evidence : Text
  pub amount_eq : tx.amount ≡ num amount
  pub fee_eq : tx.fee ≡ num fee
  pub nonce_eq : tx.nonce ≡ num nonce
  pub evidence_eq : tx.evidence ≡ str evidence
  pub moves : eqb amount 0 ≡ (tx.recipient == slash_sentinel || tx.recipient == vote_sentinel)
  pub by_owner : IsSigned tx

is_units-num : (j : Json) → is_units j ≡ true → j ≡ num (units j)
unfolding is_units units
is_units-num null h = cc
is_units-num (bool b) h = cc
is_units-num (int (pos n)) h = refl
is_units-num (int (negsuc n)) h = cc
is_units-num (float t) h = cc
is_units-num (str s) h = cc
is_units-num (arr xs) h = cc
is_units-num (obj fs) h = cc

abbrev text_of : Option Text → Text
text_of none = []
text_of (some s) = s

module _ ⦃p : Primitives⦄ where
  as_str-str : (j : Json) → is_str (as_str j) ≡ true → j ≡ str (text_of (as_str j))
  unfolding as_str
  as_str-str null h = cc
  as_str-str (bool b) h = cc
  as_str-str (int n) h = cc
  as_str-str (float t) h = cc
  as_str-str (str s) h = refl
  as_str-str (arr xs) h = cc
  as_str-str (obj fs) h = cc

module _ ⦃p : Primitives⦄ (tx : Transaction) where
  key_signs-IsSigned :
      (k s : Option Bytes)
      → from_hex tx.public_key ≡ k
      → from_hex tx.signature ≡ s
      → key_signs tx k s ≡ true
      → IsSigned tx
  key_signs-IsSigned none s hk hs h = cc
  key_signs-IsSigned (some k) none hk hs h = cc
  key_signs-IsSigned (some k) (some s) hk hs h = record {
    key = k;
    sig = s;
    has_key = hk;
    has_sig = hs;
    owns = ground (arith, text_eq_iff (address_from_public_key k) tx.sender);
    signed = ground arith;
  }

  pub is_valid-IsTyped : is_valid tx ≡ true → IsTyped tx
  unfolding is_valid
  is_valid-IsTyped h = record {
    amount = units tx.amount;
    fee = units tx.fee;
    nonce = units tx.nonce;
    evidence = text_of (as_str tx.evidence);
    amount_eq = is_units-num tx.amount (ground (arith, h));
    fee_eq = is_units-num tx.fee (ground (arith, h));
    nonce_eq = is_units-num tx.nonce (ground (arith, h));
    evidence_eq = as_str-str tx.evidence (ground (arith, h));
    moves = ground (arith, h);
    by_owner =
        key_signs-IsSigned (from_hex tx.public_key) (from_hex tx.signature) refl refl
          (ground (arith, h));
  }
