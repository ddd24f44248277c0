-- ===== src/Storage/GenesisFile.antt =====
-- storage.BlockStore.write_genesis: the genesis file as the text of a JSON object.
use mindees_blockchain.Prelude.{Option, none, some, List, [], ◌∷◌, Text, text}
use mindees_blockchain.Dict.{Dict}
use mindees_blockchain.Json.{Json, null, str, arr, obj, Items, nil, cons, Fields, end, field, num}
use mindees_blockchain.Consensus.Genesis.{GenesisArgs}
use mindees_blockchain.Result.{Result, ok, err, invalid, genesis_exists}

abbrev pub fields_of : Dict Text Json → Fields
fields_of [] = end
fields_of ((a, v) ∷ d) = field a v (fields_of d)

abbrev pub items_of : List Json → Items
items_of [] = nil
items_of (v ∷ vs) = cons v (items_of vs)

abbrev pub grants_of : Dict Text (List Json) → Fields
grants_of [] = end
grants_of ((a, grant) ∷ d) = field a (arr (items_of grant)) (grants_of d)

abbrev pub address_or_null : Option Text → Json
address_or_null none = null
address_or_null (some a) = str a

-- The payload.
unfoldable pub genesis_payload : GenesisArgs → Json
genesis_payload g = obj (
    field (text "allocations") (obj (fields_of g.allocations)) (
      field (text "initial_stakes") (obj (fields_of g.initial_stakes)) (
        field (text "timestamp") g.timestamp (
          field (text "vesting") (obj (grants_of g.vesting)) (
            field (text "unbonding_blocks") (num g.unbonding_blocks) (
              field (text "treasury_address") (address_or_null g.treasury_address)
                (field (text "epoch") (num g.epoch) end)))))))

-- A genesis file is written once; `dumps` stands for json.dumps with sorted keys.
unfoldable pub write_genesis : (Json → Text) → GenesisArgs → Option Text → Result Text
unfolding genesis_payload
write_genesis dumps g none = ok (dumps (genesis_payload g))
write_genesis dumps g (some file) = err (invalid genesis_exists)
