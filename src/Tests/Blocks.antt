-- ===== src/Tests/Blocks.antt =====
-- A genesis and the blocks that grow from it over the toy primitives.
pub mod Tree
pub mod Conflict
pub mod Saved
pub mod Fuzzed
pub mod Faults
use mindees_blockchain.Consensus.Build.{seal_block, stake_tx, vote_tx}
use mindees_blockchain.Consensus.Election.{
  active, draw, elect, elect_validator, insert_sorted, seed_of, sorted, weight,
}
use mindees_blockchain.Consensus.Evidence.{authenticated, hexbytes, load_json}
use mindees_blockchain.Consensus.Genesis.{GenesisArgs, init, place_stakes, read_grants}
use mindees_blockchain.Consensus.Rules.{
  apply_block_pre, apply_tx, check_proposer, check_supply, mature, pay_out, pos_hooks, remaining,
  snapshot_checkpoint, submit,
}
use mindees_blockchain.Consensus.Slash.{
  beneficiary, bonded_of, confiscate, reporter_share, settle_slash,
}
use mindees_blockchain.Consensus.Stake.{apply_stake, enforce_vesting, holding, locked_at}
use mindees_blockchain.Consensus.State.{
  Grant, Offense_eq, PosChain, PosWork, block_fault, bonded_in, debit, supply, total_supply,
  unbonding_total,
}
use mindees_blockchain.Consensus.Vote.{
  apply_vote, cast_vote, check_vote, finalize, is_supermajority, justify, quorum_stake, record_vote,
  vote_link, voted_stake,
}
use mindees_blockchain.Core.Block.{Block, hash, header, post_init, root_of}
use mindees_blockchain.Core.Chain.{
  all_units, amounts, apply, apply_txs, begin, coin, genesis_block, init_chain, submit_block,
  transfer,
}
use mindees_blockchain.Core.Encoding.{
  address_from_public_key, b58check, base58, canonical, double_sha256, from_bytes, from_hex, hex,
  leading_ones, sha256, to_bytes,
}
use mindees_blockchain.Core.Merkle.{append_last, leaves, merkle_root, pad, pair_up, reduce}
use mindees_blockchain.Core.Signature.{
  address, public_key_bytes, public_key_hex, sign_bytes, verify_signature,
}
use mindees_blockchain.Core.Transaction.{
  Transaction, has_fields, has_shape, has_units, is_valid, sign, signing_payload, slash_sentinel,
  txid, unsigned, vote_sentinel,
}
use mindees_blockchain.Dict.{
  IsUnique, add, contains, credit, erase, get, get_or, member, put, set_default, total,
}
use mindees_blockchain.Json.{as_str, is_units, lookup, num, str, truthy, units}
use mindees_blockchain.Prelude.{
  IsIn, Text_eq, [], arith, false, inl, pair_eq, refl, some, text, text_eq, text_lt, true, ℕ_eq,
  ◌*◌, ◌<◌, ◌∷◌, ◌≡◌,
}
use mindees_blockchain.Result.{ok}
use mindees_blockchain.Tests.Toy.{alice, bob, result_of, toy}
use mindees_blockchain.Vesting.{locked, vested}

-- All that the tests compute with, on one line.
the_program : Unit {0}
unfolding init all_units amounts init_chain genesis_block post_init root_of merkle_root leaves
    reduce pad append_last pair_up hash header canonical sha256 hex from_hex place_stakes
    read_grants debit get get_or contains put set_default total credit member add is_units units
    truthy as_str lookup sign sign_bytes address public_key_hex public_key_bytes
    address_from_public_key b58check double_sha256 from_bytes to_bytes base58 leading_ones
    signing_payload txid verify_signature text_eq text_lt seal_block submit submit_block apply
    apply_txs begin apply_block_pre mature remaining pay_out snapshot_checkpoint apply_tx transfer
    check_proposer elect seed_of elect_validator active sorted insert_sorted weight draw
    authenticated hexbytes is_valid has_units has_shape has_fields enforce_vesting holding locked_at
    locked vested bonded_in unbonding_total supply check_supply stake_tx vote_tx apply_stake
    apply_vote load_json vote_link check_vote cast_vote record_vote justify voted_stake quorum_stake
    is_supermajority finalize total_supply settle_slash confiscate bonded_of reporter_share
    beneficiary erase
the_program = tt

-- Two bootstrap validators; all of Bob's coins vest, from height 10 to height 100.
abbrev pub genesis_args : GenesisArgs
unfolding the_program
genesis_args = record {
  allocations = (address alice, num (999_000 * coin)) ∷ (address bob, num (1_000 * coin)) ∷ [];
  initial_stakes = (address alice, num (500 * coin)) ∷ (address bob, num (100 * coin)) ∷ [];
  timestamp = num 0;
  vesting = (address bob, num (1_000 * coin) ∷ num 0 ∷ num 10 ∷ num 100 ∷ []) ∷ [];
  unbonding_blocks = 3;
  treasury_address = some (text "treasury");
  epoch = 1;
}

abbrev pub chain₀ : PosChain
unfolding the_program
chain₀ = result_of (init genesis_args) tt

pub start : init genesis_args ≡ ok chain₀
unfolding the_program
start = refl

-- Alice pays Carol.
abbrev pub payment : Transaction
unfolding the_program
payment =
    result_of
      (sign alice
        (unsigned (address alice) (text "carol") (num (5 * coin)) (num 1) (num 0) (str [])))
      tt

abbrev pub block₁ : Block
unfolding the_program
block₁ = result_of (seal_block (hash chain₀.head) 1 alice (payment ∷ []) (num 1) (num 0)) tt

abbrev pub chain₁ : PosChain
unfolding the_program
chain₁ = result_of (submit chain₀ block₁) tt

pub first : submit chain₀ block₁ ≡ ok chain₁
unfolding the_program
first = refl

pub payment_included : IsIn payment block₁.transactions
unfolding the_program
payment_included = inl refl

-- Bob votes to finalize: a link from the genesis block to the first block.
abbrev pub vote : Transaction
unfolding the_program
vote = result_of (vote_tx bob (hash chain₀.head) 0 (hash block₁) 1 0 2) tt

abbrev pub bond : Transaction
unfolding the_program
bond = result_of (stake_tx bob coin 0 0) tt

abbrev pub block₂ : Block
unfolding the_program
block₂ = result_of (seal_block (hash block₁) 2 alice (vote ∷ []) (num 2) (num 0)) tt

abbrev pub chain₂ : PosChain
unfolding the_program
chain₂ = result_of (submit chain₁ block₂) tt

pub second : submit chain₁ block₂ ≡ ok chain₂
unfolding the_program
second = refl

-- The working copies that the second block starts from.
abbrev pub work₂ : PosWork
unfolding the_program
work₂ = begin pos_hooks chain₁ block₂

abbrev pub voted : PosWork
unfolding the_program
voted = result_of (apply_tx chain₁.self.config vote block₂ work₂) tt

pub vote_applies : apply_tx chain₁.self.config vote block₂ work₂ ≡ ok voted
unfolding the_program
vote_applies = refl

abbrev pub bonded : PosWork
unfolding the_program
bonded = result_of (apply_tx chain₁.self.config bond block₂ work₂) tt

pub bond_applies : apply_tx chain₁.self.config bond block₂ work₂ ≡ ok bonded
unfolding the_program
bond_applies = refl

abbrev pub grant : Grant
grant = record { amount = 1_000 * coin; start = 0; cliff = 10; duration = 100 }

pub vote_grant : get vote.sender chain₁.self.config.vesting ≡ some grant
unfolding the_program
vote_grant = refl

pub bond_grant : get bond.sender chain₁.self.config.vesting ≡ some grant
unfolding the_program
bond_grant = refl

-- Bob holds just what is locked, and another seals the block and is paid the fee.
pub vote_at_the_edge :
    (vote.recipient ≡ vote_sentinel)
    × (holding vote.sender work₂ ≡ locked_at grant block₂.index)
    × (0 < units vote.fee)
unfolding the_program
vote_at_the_edge = (refl, refl, omega arith)

pub bond_elsewhere :
    (text_eq bond.recipient slash_sentinel ≡ false) × (text_eq bond.recipient vote_sentinel ≡ false)
unfolding the_program
bond_elsewhere = (refl, refl)

pub vote_to_another : text_eq vote.sender block₂.validator ≡ false
unfolding the_program
vote_to_another = refl

-- The first chain, had it slashed Bob for the first height.
abbrev pub slashing : PosChain
slashing = record chain₁ {
  self = record (chain₁.self) {
    state = record (chain₁.self.state) {
      slashed = block_fault (text "mallory") 1 ∷ [];
      slashed_addrs = text "mallory" ∷ [];
      ffg_seen_target = ((text "mallory", 1), (text "s", text "t")) ∷ [];
    };
  };
}

abbrev pub after_vote : PosWork
unfolding the_program
after_vote =
    result_of
      (apply_txs pos_hooks slashing.self block₂ [] (vote ∷ []) (begin pos_hooks slashing block₂)) tt

pub vote_runs :
    apply_txs pos_hooks slashing.self block₂ [] (vote ∷ []) (begin pos_hooks slashing block₂)
    ≡ ok after_vote
unfolding the_program
vote_runs = refl

abbrev pub slashed₂ : PosChain
unfolding the_program
slashed₂ = result_of (submit slashing block₂) tt

pub slashing_next : submit slashing block₂ ≡ ok slashed₂
unfolding the_program
slashing_next = refl

pub slashing_done : member (block_fault (text "mallory") 1) slashing.self.state.slashed ≡ true
unfolding the_program
slashing_done = refl

-- Mallory has 100 units staked and 50 unbonding; Bob reports.
abbrev pub guilty : PosWork
guilty = record work₂ {
  aux = record (work₂.aux) {
    stakes = (text "mallory", 100) ∷ (text "a", 30) ∷ [];
    unbonding = (text "mallory", record { amount = 50; bonded_at = 0; released_at = 9 } ∷ []) ∷ [];
  };
}

abbrev pub report : Transaction
report = unsigned (address bob) slash_sentinel (num 0) (num 2) (num 0) (str (text "evidence"))

abbrev pub settled : PosWork
unfolding the_program
settled =
    result_of
      (settle_slash (text "treasury") (text "mallory", block_fault (text "mallory") 1) report block₂
        guilty)
      tt

pub report_settles :
    settle_slash
      (text "treasury")
      (text "mallory", block_fault (text "mallory") 1)
      report
      block₂
      guilty
    ≡ ok settled
unfolding the_program
report_settles = refl

pub guilty-IsUnique : IsUnique guilty.aux.stakes × IsUnique guilty.aux.unbonding
unfolding the_program
guilty-IsUnique = ((refl, (refl, tt)), (refl, tt))

pub all_apart :
    (text_eq report.sender (text "mallory") ≡ false)
    × (text_eq report.sender (text "treasury") ≡ false)
    × (text_eq report.sender block₂.validator ≡ false)
    × (text_eq (text "treasury") block₂.validator ≡ false)
    × (text_eq (text "a") (text "mallory") ≡ false)
unfolding the_program
all_apart = (refl, refl, refl, refl, refl)
