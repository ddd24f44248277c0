-- ===== src/Storage/GenesisParams.antt =====
-- storage.BlockStore.genesis_params: the genesis arguments out of the file.
use mindees_blockchain.Prelude.{
  ℕ, ◌≡◌, refl, Bool, false, ◌||◌, not, Option, none, some, List, [], ◌∷◌, Text, text, Text_eq,
  text_eq, ◌==◌, if◌then◌else◌, map,
}
use mindees_blockchain.Dict.{Dict}
use mindees_blockchain.Json.{
  Json, null, bool, int, float, str, arr, obj, Items, nil, cons, Fields, end, field, lookup,
  is_units, units,
}
use mindees_blockchain.Primitives.{Primitives}
use mindees_blockchain.Consensus.Genesis.{GenesisArgs}
use mindees_blockchain.Storage.GenesisFile.{
  genesis_payload, fields_of, items_of, grants_of, address_or_null,
}
use mindees_blockchain.Result.{
  Result, Error, ok, err, invalid, or_raise, ◌>>=◌, ◌>>◌, raise_if, ill_typed, genesis_float,
  malformed_genesis,
}

-- What `parse_float` sees: json reads the three constants by another hook.
abbrev pub is_constant : Text → Bool
is_constant t = t == text "NaN" || (t == text "Infinity" || t == text "-Infinity")

unfoldable mutual
  pub has_float : Json → Bool
  has_float (float t) = not (is_constant t)
  has_float (arr vs) = items_have_float vs
  has_float (obj d) = fields_have_float d
  has_float null = false
  has_float (bool b) = false
  has_float (int z) = false
  has_float (str s) = false

  pub items_have_float : Items → Bool
  items_have_float nil = false
  items_have_float (cons v vs) = has_float v || items_have_float vs

  pub fields_have_float : Fields → Bool
  fields_have_float end = false
  fields_have_float (field k v d) = has_float v || fields_have_float d

abbrev pub malformed : Error
malformed = invalid malformed_genesis

unfoldable pub dict_of : Fields → Dict Text Json
dict_of end = []
dict_of (field k v d) = (k, v) ∷ dict_of d

unfoldable pub list_of : Items → List Json
list_of nil = []
list_of (cons v vs) = v ∷ list_of vs

-- `tuple(value)`: the letters of a text and the keys of a dict, too
unfoldable pub as_tuple : Json → Result (List Json)
unfolding list_of dict_of
as_tuple (arr vs) = ok (list_of vs)
as_tuple (str s) = ok (map (λ c. str (c ∷ [])) s)
as_tuple (obj d) = ok (map (λ (e : Text × Json). str e.0) (dict_of d))
as_tuple _ = err malformed

unfoldable pub read_vesting : Fields → Result (Dict Text (List Json))
unfolding as_tuple
read_vesting end = ok []
read_vesting (field a v d) = do grant ← as_tuple v; rest ← read_vesting d; ok ((a, grant) ∷ rest)

-- `g.get("vesting", {}).items()`
abbrev pub vesting_of : Option Json → Result (Dict Text (List Json))
vesting_of none = ok []
vesting_of (some (obj d)) = read_vesting d
vesting_of (some v) = err malformed

abbrev pub dict_value : Json → Result (Dict Text Json)
dict_value (obj d) = ok (dict_of d)
dict_value _ = err ill_typed

abbrev pub units_or : ℕ → Option Json → Result ℕ
units_or n none = ok n
units_or n (some v) = if is_units v then ok (units v) else err ill_typed

abbrev pub address_of : Option Json → Result (Option Text)
address_of none = ok none
address_of (some null) = ok none
address_of (some (str a)) = ok (some a)
address_of (some v) = err ill_typed

-- The tuple out of the object.
unfoldable pub args_of : Json → Result GenesisArgs
unfolding dict_of read_vesting
args_of (obj g) = do
  vesting ← vesting_of (lookup (text "vesting") g)
  allocations ← or_raise (lookup (text "allocations") g) malformed
  stakes ← or_raise (lookup (text "initial_stakes") g) malformed
  timestamp ← or_raise (lookup (text "timestamp") g) malformed
  allocations ← dict_value allocations
  stakes ← dict_value stakes
  unbonding_blocks ← units_or 0 (lookup (text "unbonding_blocks") g)
  treasury ← address_of (lookup (text "treasury_address") g)
  epoch ← units_or 32 (lookup (text "epoch") g)
  ok (record {
    allocations = allocations;
    initial_stakes = stakes;
    timestamp = timestamp;
    vesting = vesting;
    unbonding_blocks = unbonding_blocks;
    treasury_address = treasury;
    epoch = epoch;
  })
args_of _ = err malformed

-- BlockStore.genesis_params, over the text of the file
unfoldable pub genesis_params : ⦃p : Primitives⦄ → Text → Result GenesisArgs
unfolding args_of has_float
genesis_params ⦃p⦄ file = do
  g ← or_raise (p.loads file) malformed
  raise_if (has_float g) genesis_float
  args_of g

dict_of-fields_of : (d : Dict Text Json) → dict_of (fields_of d) ≡ d
unfolding dict_of
dict_of-fields_of [] = refl
dict_of-fields_of ((a, v) ∷ d) = rw (dict_of-fields_of d) refl

list_of-items_of : (vs : List Json) → list_of (items_of vs) ≡ vs
unfolding list_of
list_of-items_of [] = refl
list_of-items_of (v ∷ vs) = rw (list_of-items_of vs) refl

read_vesting-grants_of : (d : Dict Text (List Json)) → read_vesting (grants_of d) ≡ ok d
unfolding read_vesting
read_vesting-grants_of [] = refl
read_vesting-grants_of ((a, g) ∷ d) = rw (read_vesting-grants_of d, list_of-items_of g) refl

address_of-null : (t : Option Text) → address_of (some (address_or_null t)) ≡ ok t
address_of-null none = refl
address_of-null (some a) = refl

-- The arguments that `write_genesis` puts into the object of the genesis file are those that
-- `genesis_params` takes out of it.
pub args_of-genesis_payload : (g : GenesisArgs) → args_of (genesis_payload g) ≡ ok g
unfolding args_of genesis_payload lookup text_eq is_units units
args_of-genesis_payload g =
    rw
      (
        read_vesting-grants_of g.vesting,
        dict_of-fields_of g.allocations,
        dict_of-fields_of g.initial_stakes,
        address_of-null g.treasury_address,
      )
      refl
