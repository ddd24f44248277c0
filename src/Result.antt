-- ===== src/Result.antt =====
-- `raise` as a value. `invalid` is core.ValidationError, with a constructor of `Reason` for each
-- message of the sources; the others are the exceptions of Python that the code lets through.
use mindees_blockchain.Prelude.{◌≡◌, refl, Bool, true, false, Option, none, some}

pub data Reason : Type 0 where
  not_owner : Reason
  bad_allocation wrong_supply : Reason
  wrong_parent wrong_index wrong_merkle duplicate_tx invalid_tx bad_nonce : Reason
  insufficient_funds supply_violated : Reason
  malformed_hex malformed_json evidence_not_object : Reason
  malformed_tx malformed_block : Reason
  no_validators : Reason
  bad_initial_stake stake_exceeds_balance bad_grant grant_exceeds_holding bad_epoch : Reason
  wrong_proposer missing_signature proposer_key_mismatch bad_block_signature : Reason
  insufficient_stake last_validator vesting_locked : Reason
  vote_field_missing vote_field_type vote_unordered vote_no_checkpoint : Reason
  vote_wrong_height vote_unjustified vote_slashed vote_no_stake vote_conflict : Reason
  no_evidence no_treasury already_slashed : Reason
  evidence_heights evidence_parents evidence_validators evidence_same_block : Reason
  fault_invalid_tx fault_not_votes fault_voters fault_none : Reason
  fee_below_floor nonce_spent pool_full : Reason
  genesis_exists corrupt_store no_validator not_our_turn no_block : Reason
  unknown_block orphan conflicts_finalized not_descendant unknown_method : Reason
  genesis_float malformed_genesis : Reason
  conflicts_checkpoint conflicting_finality : Reason

-- `ill_typed` stands where Python keeps a value of a type that the annotations exclude.
pub data Error : Type 0 where
  invalid : Reason → Error
  key_error value_error type_error attribute_error system_exit ill_typed : Error

pub data Result {ℓ} (A : Type ℓ) : Type ℓ where
  err : Error → Result A
  ok : A → Result A

abbrev pub ◌>>=◌ {ℓ κ} : {A : Type ℓ} {B : Type κ} → Result A → (A → Result B) → Result B
err e >>= next = err e
ok a >>= next = next a

infixl 5 ◌>>=◌ ◌>>◌
-- `if test: raise ValidationError(reason)`
abbrev pub raise_if : Bool → Reason → Result (Unit {0})
raise_if true r = err (invalid r)
raise_if false r = ok tt

abbrev pub ◌>>◌ {ℓ} : {B : Type ℓ} → Result (Unit {0}) → Result B → Result B
test >> rest = test >>= λ _. rest

abbrev pub or_raise {ℓ} : {A : Type ℓ} → Option A → Error → Result A
or_raise none e = err e
or_raise (some a) e = ok a

-- What a successful call returns has a property.
abbrev pub Returns {ℓ κ} : {A : Type ℓ} → (A → Type κ) → Result A → Type κ
Returns P (ok a) = P a
Returns P (err e) = Unit

-- Inversion of a successful bind.
pub >>=-eq-ok {ℓ κ} :
    {A : Type ℓ} {B : Type κ} (r : Result A) (next : A → Result B) {b : B}
    → (r >>= next) ≡ ok b
    → (a : A) × (r ≡ ok a) × (next a ≡ ok b)
>>=-eq-ok (err e) next h = cc
>>=-eq-ok (ok a) next h = (a, refl, h)

-- A test that did not raise.
pub raise_if-eq-ok {ℓ} :
    {B : Type ℓ} (t : Bool) (r : Reason) (k : Result B) {b : B}
    → (raise_if t r >> k) ≡ ok b
    → (t ≡ false) × (k ≡ ok b)
raise_if-eq-ok true r k h = cc
raise_if-eq-ok false r k h = (refl, h)

pub Result-cases {ℓ} : {A : Type ℓ} (m : Result A) → Returns (λ a. m ≡ ok a) m
Result-cases (ok a) = refl
Result-cases (err e) = tt
