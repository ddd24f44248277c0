-- ===== src/CommandLine.antt =====
-- What the commands of wallet.py, node.py, tokenomics.py and run_testnet.py do between the parser of
-- their arguments and their effects. What int() and decimal.Decimal read is an argument.
use mindees_blockchain.Prelude.{
  ℕ, ◌-◌, ◌*◌, ◌/◌, ◌%◌, ◌^◌, ℤ, pos, negsuc, Bool, ◌&&◌, ◌||◌, Option, none, some, List, [], ◌∷◌,
  Text, text, Text_eq, ◌==◌, eqb, leb, not, if◌then◌else◌, length, map,
}
use mindees_blockchain.Dict.{Dict, put}
use mindees_blockchain.Json.{Json, int, str, num, truthy, Fields}
use mindees_blockchain.Primitives.{Primitives}
use mindees_blockchain.Core.Signature.{Wallet, address}
use mindees_blockchain.Core.Transaction.{Transaction, sign, unsigned}
use mindees_blockchain.Core.Chain.{coin, max_supply_units}
use mindees_blockchain.Consensus.Build.{stake_tx, unstake_tx}
use mindees_blockchain.Consensus.Genesis.{GenesisArgs}
use mindees_blockchain.Keystore.{Cipher, decrypt_secret}
use mindees_blockchain.Tokenomics.{build_genesis}
use mindees_blockchain.Peers.Messages.{split_last}
use mindees_blockchain.Result.{Result, ok, err, ◌>>=◌, ◌>>◌, value_error, system_exit}

-- `Decimal(str(value)) * COIN`: an integer over a power of ten.
pub record Decimal : Type 0 where
  pub digits : ℤ
  pub places : ℕ

abbrev to_units : ℤ → ℕ → Result ℕ
to_units (negsuc n) places = err value_error
to_units (pos n) places = if eqb (n % 10 ^ places) 0 then ok (n / 10 ^ places) else err value_error

-- wallet.parse_amount
unfoldable pub parse_amount : (Text → Result Decimal) → Text → Result ℕ
parse_amount times_coin value = do units ← times_coin value; to_units units.digits units.places

-- wallet._resolve_secret: the keystore where one is named, with the passphrase of the environment
unfoldable pub resolve_secret :
    ⦃cipher : Cipher⦄ → Option (Result Fields) → Text → Text → Result Text
resolve_secret (some loaded) passphrase secret =
    if truthy (str passphrase)
    then (loaded >>= λ keystore. decrypt_secret keystore passphrase)
    else err system_exit
resolve_secret none passphrase secret = if truthy (str secret) then ok secret else err system_exit

-- The commands of the wallet that submit a transaction.
pub data Command : Type 0 where
  send : Text → Command
  stake unstake : Command

module _ ⦃p : Primitives⦄ where
  unfoldable pub build_tx : Command → Wallet → ℕ → ℕ → ℕ → Result Transaction
  build_tx (send to) w amount fee nonce =
      sign w (unsigned (address w) to (num amount) (num fee) (num nonce) (str []))
  build_tx stake w amount fee nonce = stake_tx w amount fee nonce
  build_tx unstake w amount fee nonce = unstake_tx w amount fee nonce

  -- The end of wallet.main: the transaction of a command, with the next nonce from the node.
  unfoldable pub submit_command :
      (Text → Result Decimal) → Command → Wallet → Text → Text → Result ℕ → Result Transaction
  unfolding parse_amount build_tx
  submit_command times_coin command w amount fee next_nonce = do
    amount ← parse_amount times_coin amount
    fee ← parse_amount times_coin fee
    nonce ← next_nonce
    build_tx command w amount fee nonce

-- `init` of node.py: one address holds everything, and may stake a part of it.
unfoldable pub node_genesis : Text → ℕ → ℕ → GenesisArgs
node_genesis to coins timestamp = record {
  allocations = (to, num max_supply_units) ∷ [];
  initial_stakes = if eqb coins 0 then [] else (to, num (coins * coin)) ∷ [];
  timestamp = num timestamp;
  vesting = [];
  unbonding_blocks = 0;
  treasury_address = none;
  epoch = 32;
}

unfoldable pub is_loopback : Text → Bool
is_loopback host = host == text "127.0.0.1" || (host == text "localhost" || host == text "::1")

-- `HASH:HEIGHT`; without a colon `rpartition` leaves the hash empty
abbrev read_checkpoint : (Text → Result ℕ) → Text → Option (Text × Text) → Result (Text × ℕ)
read_checkpoint to_int arg none = to_int arg >>= λ height. ok ([], height)
read_checkpoint to_int arg (some (h, height)) = to_int height >>= λ height. ok (h, height)

-- `raise SystemExit(...)`
abbrev exit_if : Bool → Result (Unit {0})
exit_if b = if b then err system_exit else ok tt

-- `serve` of node.py up to the service: a server that others reach has a token.
unfoldable pub serve_options : (Text → Result ℕ) → Text → Text → Text → Result (Option (Text × ℕ))
unfolding is_loopback
serve_options to_int host token checkpoint = do
  exit_if (not (is_loopback host) && not (truthy (str token)))
  if truthy (str checkpoint)
      then (read_checkpoint to_int checkpoint (split_last checkpoint) >>= λ c. ok (some c))
      else ok none

abbrev as_numbers : Dict Text ℕ → Dict Text Json
as_numbers [] = []
as_numbers ((a, n) ∷ d) = (a, num n) ∷ as_numbers d

abbrev as_grants : Dict Text (List ℕ) → Dict Text (List Json)
as_grants [] = []
as_grants ((a, g) ∷ d) = (a, map num g) ∷ as_grants d

abbrev or_generated : Option Text → Text → Text
or_generated none generated = generated
or_generated (some given) generated = given

-- `init` of tokenomics.py: an address that is not given comes from a fresh secret.
unfoldable pub split_genesis :
    Option Text
    → Option Text
    → Option Text
    → Text × Text × Text
    → ℕ
    → ℕ
    → ℕ
    → ℕ
    → ℕ
    → Result GenesisArgs
split_genesis market founder treasury (fresh_market, fresh_founder, fresh_treasury) founder_stake
      vest_cliff vest_duration unbonding_blocks timestamp =
    do
      built ←
          build_genesis (or_generated market fresh_market) (or_generated founder fresh_founder)
            founder_stake vest_cliff vest_duration
      let (allocations, initial_stakes, vesting) = built
      ok (record {
        allocations = as_numbers allocations;
        initial_stakes = as_numbers initial_stakes;
        timestamp = num timestamp;
        vesting = as_grants vesting;
        unbonding_blocks = unbonding_blocks;
        treasury_address = some (or_generated treasury fresh_treasury);
        epoch = 32;
      })

abbrev each : List Text → Json → Dict Text Json → Dict Text Json
each [] v d = d
each (a ∷ rest) v d = each rest v (put a v d)

-- build_genesis of run_testnet.py, for its treasury and the addresses of its validators: what they do
-- not stake goes to the treasury, and may be negative.
unfoldable pub testnet_genesis : Text → List Text → ℕ → ℕ → ℕ → GenesisArgs
testnet_genesis treasury validators stake_coins epoch unbonding =
    let stakes = length validators * (stake_coins * coin) in
    let left =
      if leb stakes max_supply_units
      then num (max_supply_units - stakes)
      else int (negsuc (stakes - max_supply_units - 1)) in
    record {
      allocations = each validators (num (stake_coins * coin)) ((treasury, left) ∷ []);
      initial_stakes = each validators (num (stake_coins * coin)) [];
      timestamp = num 1_700_000_000;
      vesting = [];
      unbonding_blocks = unbonding;
      treasury_address = some treasury;
      epoch = epoch;
    }
