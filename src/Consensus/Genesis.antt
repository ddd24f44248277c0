-- ===== src/Consensus/Genesis.antt =====
-- ProofOfStakeChain.__init__: the genesis state, from arguments whose numbers may be of any type.
use mindees_blockchain.Prelude.{
  ℕ, ◌+◌, ◌&&◌, ◌||◌, Option, none, some, List, [], ◌∷◌, Text, Text_eq, eqb, ltb, not,
  if◌then◌else◌,
}
use mindees_blockchain.Dict.{Dict, get_or, set_default, credit}
use mindees_blockchain.Json.{Json, is_units, units}
use mindees_blockchain.Primitives.{Primitives}
use mindees_blockchain.Core.Block.{hash}
use mindees_blockchain.Core.Chain.{Balances, init_chain}
use mindees_blockchain.Consensus.State.{Grant, Aux, PosChain, debit}
use mindees_blockchain.Result.{
  Result, ok, err, invalid, raise_if, ◌>>=◌, ◌>>◌, bad_initial_stake, stake_exceeds_balance,
  bad_grant, grant_exceeds_holding, bad_epoch,
}

-- The arguments, which storage.py reads from genesis.json.
pub record GenesisArgs : Type 0 where
  pub allocations : Dict Text Json
  pub initial_stakes : Dict Text Json
  pub timestamp : Json
  pub vesting : Dict Text (List Json)
  pub unbonding_blocks : ℕ
  pub treasury_address : Option Text
  pub epoch : ℕ

-- Balances and stakes after the bootstrap validators: each entry moves from liquid to staked.
unfoldable pub place_stakes : Dict Text Json → Balances × Balances → Result (Balances × Balances)
unfolding debit
place_stakes [] acc = ok acc
place_stakes ((a, v) ∷ d) (balances, stakes) = do
  raise_if (not (is_units v) || eqb (units v) 0) bad_initial_stake
  raise_if (ltb (get_or a 0 balances) (units v)) stake_exceeds_balance
  balances ← debit a (units v) balances
  place_stakes d (balances, credit a (units v) stakes)

abbrev read_grant : List Json → Result Grant
read_grant (a ∷ s ∷ c ∷ d ∷ []) =
    if (is_units a && is_units s) && (is_units c && is_units d)
    then ok (record { amount = units a; start = units s; cliff = units c; duration = units d })
    else err (invalid bad_grant)
read_grant _ = err (invalid bad_grant)

-- No grant is larger than what its owner holds at genesis.
unfoldable pub read_grants : Balances → Balances → Dict Text (List Json) → Result (Dict Text Grant)
read_grants balances stakes [] = ok []
read_grants balances stakes ((a, v) ∷ d) = do
  g ← read_grant v
  raise_if (ltb (get_or a 0 balances + get_or a 0 stakes) g.amount) grant_exceeds_holding
  gs ← read_grants balances stakes d
  ok ((a, g) ∷ gs)

abbrev pub with_treasury : Option Text → Balances → Balances
with_treasury none d = d
with_treasury (some t) d = set_default t 0 d

-- Genesis is a checkpoint that is justified and final by definition.
abbrev pub genesis_state : Text → Balances → Aux
genesis_state h stakes = record {
  stakes = stakes;
  unbonding = [];
  slashed = [];
  slashed_addrs = [];
  ffg_stake = (h, stakes) ∷ [];
  ffg_height = (h, 0) ∷ [];
  ffg_votes = [];
  ffg_seen_target = [];
  justified = h ∷ [];
  finalized = (h, 0);
  justified_parent = [];
}

module _ ⦃p : Primitives⦄ where
  unfoldable pub init : GenesisArgs → Result PosChain
  unfolding init_chain place_stakes read_grants
  init g = do
    base ← init_chain g.allocations g.timestamp tt
    placed ← place_stakes g.initial_stakes (base.balances, [])
    vesting ← read_grants placed.0 placed.1 g.vesting
    raise_if (eqb g.epoch 0) bad_epoch
    ok (record {
      balances = with_treasury g.treasury_address placed.0;
      nonces = base.nonces;
      head = base.head;
      older = base.older;
      self = record {
        config = record {
          vesting = vesting;
          unbonding_blocks = g.unbonding_blocks;
          treasury_address = g.treasury_address;
          epoch = g.epoch;
        };
        state = genesis_state (hash base.head) placed.1;
      };
    })
