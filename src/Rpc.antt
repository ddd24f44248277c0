-- ===== src/Rpc.antt =====
-- The JSON-RPC server of node.py: what one POST request does to the node and what it answers. The
-- socket, the headers other than two, and the text of an exception are left out.
pub mod Guards
use mindees_blockchain.Prelude.{
  ℕ, pos, negsuc, Bool, true, false, ◌&&◌, ◌||◌, Option, none, some, List, [], ◌∷◌, Text, text,
  Text_eq, ◌==◌, eqb, ltb, if◌then◌else◌, drop,
}
use mindees_blockchain.Json.{
  Json, null, bool, int, float, str, arr, obj, Fields, end, field, lookup, truthy, num, as_str,
}
use mindees_blockchain.Dict.{member}
use mindees_blockchain.Primitives.{Primitives}
use mindees_blockchain.Core.Block.{Block, hash}
use mindees_blockchain.Network.Codec.{encode_block}
use mindees_blockchain.Service.{
  Service, Info, chain_of, info, balance, nonce, stake, spendable, locked, get_block, submit_tx,
  receive_block,
}
use mindees_blockchain.Result.{
  Result, Error, ok, err, invalid, or_raise, raise_if, ◌>>=◌, ◌>>◌, key_error, type_error,
  value_error, ill_typed, no_block, unknown_method,
}

abbrev pub coin_name : Text
coin_name = text "Mindees"

abbrev pub symbol : Text
symbol = text "MIND"

abbrev pub decimals : ℕ
decimals = 8

abbrev pub max_rpc_body : ℕ
max_rpc_body = 8_000_000

abbrev pub write_methods : List Text
write_methods = text "submit_tx" ∷ text "receive_block" ∷ []

-- `params[key]`
unfoldable pub param : Text → Json → Result Json
param k (obj d) = or_raise (lookup k d) key_error
param k _ = err type_error

-- `0 <= index`, for an int
abbrev pub as_index : Json → Result ℕ
as_index (int (pos n)) = ok n
as_index (int (negsuc n)) = err (invalid no_block)
as_index _ = err ill_typed

abbrev pub text_or_null : Option Text → Json
text_or_null none = null
text_or_null (some s) = str s

-- The dict that `info` returns.
abbrev pub info_json : Info → Json
info_json i = obj (
    field (text "name") (str coin_name) (
      field (text "symbol") (str symbol) (
        field (text "decimals") (num decimals) (
          field (text "height") (num i.height) (
            field (text "head") (str i.head) (
              field (text "finalized_height") (num i.finalized_height) (
                field (text "finalized") (str i.finalized) (
                  field (text "supply") (num i.supply) (
                    field (text "max_supply") (num i.max_supply) (
                      field (text "mempool") (num i.mempool) (
                        field (text "next_validator") (text_or_null i.next_validator) end)))))))))))

module _ ⦃p : Primitives⦄ where
  abbrev pub mined_json : Option Block → Json
  mined_json none = null
  mined_json (some b) = encode_block b

  abbrev pub submitted : Result (Text × Option Block) × Service → Result Json × Service
  submitted (err e, s) = (err e, s)
  submitted (ok (i, mined), s) =
      (ok (obj (field (text "txid") (str i) (field (text "mined") (mined_json mined) end))), s)

  -- The answer of `receive_block` reads the head after the block was taken.
  abbrev pub received : Result Bool × Service → Result Json × Service
  received (err e, s) = (err e, s)
  received (ok accepted, s) = (
    ok (
        obj (
          field (text "accepted") (bool accepted) (
            field (text "height") (num (chain_of s).head.index) (
              field (text "head") (str (hash (chain_of s).head))
                (field (text "finalized_height") (num s.tree.finalized_height) end))))),
    s,
  )

  abbrev by_address : (Text → Service → ℕ) → Json → Service → Result Json
  by_address query params s = do
    a ← param (text "address") params
    a ← or_raise (as_str a) ill_typed
    ok (num (query a s))

  abbrev block_of : Json → Service → Result Json
  block_of params s = do v ← param (text "index") params; index ← as_index v; get_block index s

  -- The methods that only look at the node, and the end of `dispatch`.
  unfoldable pub read_method : Text → Json → Service → Result Json
  unfolding param
  read_method method params s =
      if method == text "info"
      then (info s >>= λ i. ok (info_json i))
      else if method == text "balance"
      then by_address balance params s
      else if method == text "nonce"
      then by_address nonce params s
      else if method == text "stake"
      then by_address stake params s
      else if method == text "spendable"
      then by_address spendable params s
      else if method == text "locked"
      then by_address locked params s
      else if method == text "get_block"
      then block_of params s
      else err (invalid unknown_method)

  module _ (line_of : Json → Text) (clock : Json) where
    abbrev submit_param : Result Json → Service → Result Json × Service
    submit_param (err e) s = (err e, s)
    submit_param (ok wire) s = submitted (submit_tx line_of s wire clock)

    abbrev receive_param : Result Json → Service → Result Json × Service
    receive_param (err e) s = (err e, s)
    receive_param (ok wire) s = received (receive_block line_of s wire)

    -- JSONRPCServer.dispatch over the table of methods; `clock` is the timestamp of `produce_block`
    unfoldable pub dispatch : Text → Json → Service → Result Json × Service
    unfolding read_method
    dispatch method params s =
        if method == text "submit_tx"
        then submit_param (param (text "tx") params) s
        else if method == text "receive_block"
        then receive_param (param (text "block") params) s
        else (read_method method params s, s)

pub data Answer : Type 0 where
  too_large unauthorized : Answer
  result : Json → Answer
  failed : Error → Answer

-- The payload of `_reply`.
pub record Reply : Type 0 where
  pub id : Json
  pub answer : Answer

abbrev starts_with : Text → Text → Bool
starts_with [] t = true
starts_with (c ∷ cs) [] = false
starts_with (c ∷ cs) (d ∷ t) = eqb c d && starts_with cs t

-- The token of an Authorization header.
unfoldable pub bearer : Text → Text
bearer auth = if starts_with (text "Bearer ") auth then drop 7 auth else []

unfoldable pub is_ascii : Text → Bool
is_ascii [] = true
is_ascii (c ∷ t) = ltb c 128 && is_ascii t

-- hmac.compare_digest on texts, which raises TypeError unless both are ASCII
unfoldable pub compare_digest : Text → Text → Result Bool
unfolding is_ascii
compare_digest a b = if is_ascii a && is_ascii b then ok (a == b) else err type_error

-- Whether a write may pass: the token of the server is empty or the request bears it.
unfoldable pub may_call : Text → Text → Text → Result Bool
unfolding bearer compare_digest
may_call token auth method =
    if member method write_methods && truthy (str token)
    then compare_digest (bearer auth) token
    else ok true

-- `req.get("params") or {}`
abbrev pub params_of : Option Json → Json
params_of none = obj end
params_of (some v) = if truthy v then v else obj end

-- `req.get("id")`
abbrev pub id_of : Option Json → Json
id_of none = null
id_of (some v) = v

-- A method that is no text is in no table, and a list or a dict cannot even be looked up.
abbrev pub method_of : Json → Result Text
method_of (str m) = ok m
method_of (arr xs) = err type_error
method_of (obj d) = err type_error
method_of _ = err (invalid unknown_method)

module _ ⦃p : Primitives⦄ where
  -- The request of a body; where it is no dict, `req.get` raises AttributeError.
  unfoldable pub read_request : Text → Result Fields
  read_request body = do
    j ← or_raise (p.loads (if truthy (str body) then body else text "{}")) value_error
    elim j [ obj d ↦ ok d | _ ↦ err type_error ]

  module _ (line_of : Json → Text) (clock : Json) (token : Text) where
    abbrev answered : Json → Result Json × Service → Reply × Service
    answered id (err e, s) = (record { id = id; answer = failed e }, s)
    answered id (ok j, s) = (record { id = id; answer = result j }, s)

    abbrev guarded : Json → Result Bool → Text → Json → Service → Reply × Service
    guarded id (err e) method params s = (record { id = id; answer = failed e }, s)
    guarded id (ok false) method params s = (record { id = id; answer = unauthorized }, s)
    guarded id (ok true) method params s = answered id (dispatch line_of clock method params s)

    abbrev called : Text → Fields → Result Text → Service → Reply × Service
    called auth d (err e) s = (record { id = id_of (lookup (text "id") d); answer = failed e }, s)
    called auth d (ok method) s =
        guarded (id_of (lookup (text "id") d)) (may_call token auth method) method
          (params_of (lookup (text "params") d)) s

    unfoldable pub serve : Text → Result Fields → Service → Reply × Service
    unfolding may_call dispatch
    serve auth (err e) s = (record { id = null; answer = failed e }, s)
    serve auth (ok d) s =
        called auth d (or_raise (lookup (text "method") d) key_error >>= method_of) s

    -- _RPCHandler.do_POST: the length, the Authorization header and the body of a request
    unfoldable pub do_post : ℕ → Text → Text → Service → Reply × Service
    unfolding serve read_request
    do_post length auth body s =
        if ltb max_rpc_body length
        then (record { id = null; answer = too_large }, s)
        else serve auth (read_request body) s
