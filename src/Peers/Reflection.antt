-- ===== src/Peers/Reflection.antt =====
-- No message makes a node send blocks to a third party, or more than a batch of them.
use mindees_blockchain.Prelude.{
  ℕ, pos, negsuc, ◌≤◌, ◌≡◌, Option, none, some, List, [], ◌∷◌, Text, text, Text_eq, text_eq_iff,
  arith, length, take, zero, suc,
}
use mindees_blockchain.Json.{Json, null, bool, int, float, str, arr, obj, Fields, lookup}
use mindees_blockchain.Primitives.{Primitives, Bytes}
use mindees_blockchain.Network.Ingest.{or_null, read_line}
use mindees_blockchain.Peers.{Peer, Message}
use mindees_blockchain.Peers.Messages.{serve_blocks, reply_to, on_tx, on_block, max_sync_batch}
use mindees_blockchain.Peers.Inbox.{
  Sent, nothing, learn_addresses, on_hello, hello_from, serve_since, on_get_blocks, on_message,
  on_kind, typed, to_all, max_msg_bytes, handled, swallow, handle,
}
use mindees_blockchain.Result.{Result, Error, ok, err, type_error, Returns}

-- The blocks go to the address `ip`.
abbrev pub IsHome : Text → Option ((Text × ℕ) × List Json) → Type 0
IsHome ip none = Unit
IsHome ip (some ((host, port), blocks)) = (host ≡ ip) × (length blocks ≤ max_sync_batch)

unfoldable pub RepliesHome : Text → Result Sent × Peer → Type 0
RepliesHome ip r = Returns (λ s. IsHome ip s.reply) r.0

raises-RepliesHome : (ip : Text) (e : Error) (n : Peer) → RepliesHome ip (err e, n)
unfolding RepliesHome
raises-RepliesHome ip e n = tt

silent-RepliesHome : (ip : Text) (n : Peer) → RepliesHome ip (ok nothing, n)
unfolding RepliesHome
silent-RepliesHome ip n = tt

learn_addresses-RepliesHome :
    (ip : Text) (vs : List Json) (n : Peer) → RepliesHome ip (learn_addresses vs n)
unfolding learn_addresses
learn_addresses-RepliesHome ip [] n = silent-RepliesHome ip n
learn_addresses-RepliesHome ip (v ∷ vs) n =
    grind (arith, learn_addresses-RepliesHome ip vs, raises-RepliesHome ip)

hello_from-RepliesHome :
    (ip : Text) (addr : Json) (peers : Option Json) (n : Peer)
    → RepliesHome ip (hello_from addr peers n)
hello_from-RepliesHome ip addr none n = learn_addresses-RepliesHome ip (addr ∷ []) n
hello_from-RepliesHome ip addr (some (arr vs)) n = learn_addresses-RepliesHome ip _ n
hello_from-RepliesHome ip addr (some null) n = raises-RepliesHome ip type_error n
hello_from-RepliesHome ip addr (some (bool b)) n = raises-RepliesHome ip type_error n
hello_from-RepliesHome ip addr (some (int z)) n = raises-RepliesHome ip type_error n
hello_from-RepliesHome ip addr (some (float t)) n = raises-RepliesHome ip type_error n
hello_from-RepliesHome ip addr (some (str t)) n = raises-RepliesHome ip type_error n
hello_from-RepliesHome ip addr (some (obj d)) n = raises-RepliesHome ip type_error n

on_hello-RepliesHome : (ip : Text) (msg : Fields) (n : Peer) → RepliesHome ip (on_hello msg n)
unfolding on_hello
on_hello-RepliesHome ip msg n =
    hello_from-RepliesHome ip (or_null (lookup (text "addr") msg)) (lookup (text "peers") msg) n

length-take {ℓ} : {A : Type ℓ} (k : ℕ) (xs : List A) → length (take k xs) ≤ k
length-take zero xs = omega arith
length-take (suc k) [] = omega arith
length-take (suc k) (x ∷ xs) = omega (arith, length-take k xs)

reply_to-IsHome :
    (ip : Text) (to : Option (Text × ℕ)) (blocks : List Json)
    → IsHome ip (reply_to to (some ip) blocks)
unfolding reply_to
reply_to-IsHome ip none blocks = tt
reply_to-IsHome ip (some (host, port)) blocks =
    ground (arith, text_eq_iff host ip, length-take max_sync_batch blocks)

module _ ⦃p : Primitives⦄ (ip : Text) where
  serve_since-IsHome :
      (reply : Text) (since : Option Json) (n : Peer)
      → IsHome ip (serve_since reply since (some ip) n)
  unfolding serve_since serve_blocks
  serve_since-IsHome reply none n = reply_to-IsHome ip _ _
  serve_since-IsHome reply (some null) n = tt
  serve_since-IsHome reply (some (bool b)) n = reply_to-IsHome ip _ _
  serve_since-IsHome reply (some (int (pos since))) n = reply_to-IsHome ip _ _
  serve_since-IsHome reply (some (int (negsuc m))) n = reply_to-IsHome ip _ _
  serve_since-IsHome reply (some (float t)) n = tt
  serve_since-IsHome reply (some (str t)) n = tt
  serve_since-IsHome reply (some (arr vs)) n = tt
  serve_since-IsHome reply (some (obj d)) n = tt

  on_get_blocks-RepliesHome :
      (msg : Fields) (n : Peer) → RepliesHome ip (on_get_blocks msg (some ip) n)
  unfolding on_get_blocks RepliesHome
  on_get_blocks-RepliesHome msg n = grind (arith, serve_since-IsHome)

  to_all-RepliesHome : (r : Result (List Message) × Peer) → RepliesHome ip (to_all r)
  unfolding RepliesHome
  to_all-RepliesHome (err e, n) = tt
  to_all-RepliesHome (ok sent, n) = tt

  swallow-RepliesHome : (r : Result Sent × Peer) → RepliesHome ip r → RepliesHome ip (swallow r)
  unfolding RepliesHome swallow
  swallow-RepliesHome (err e, n) h = ground arith
  swallow-RepliesHome (ok sent, n) h = h

  module _ (utf8 : Text → Bytes) (line_of : Json → Text) where
    on_kind-RepliesHome :
        (kind : Text) (msg : Fields) (n : Peer)
        → RepliesHome ip (on_kind utf8 line_of kind msg (some ip) n)
    unfolding on_kind
    on_kind-RepliesHome kind msg n = ground (
      arith,
      on_hello-RepliesHome ip msg n,
      on_get_blocks-RepliesHome msg n,
      silent-RepliesHome ip n,
      to_all-RepliesHome (on_tx (or_null (lookup (text "data") msg)) n),
      to_all-RepliesHome (on_block utf8 line_of (or_null (lookup (text "data") msg)) n),
    )

    typed-RepliesHome :
        (kind : Option Json) (msg : Fields) (n : Peer)
        → RepliesHome ip (typed utf8 line_of kind msg (some ip) n)
    typed-RepliesHome none msg n = silent-RepliesHome ip n
    typed-RepliesHome (some null) msg n = silent-RepliesHome ip n
    typed-RepliesHome (some (bool b)) msg n = silent-RepliesHome ip n
    typed-RepliesHome (some (int z)) msg n = silent-RepliesHome ip n
    typed-RepliesHome (some (float t)) msg n = silent-RepliesHome ip n
    typed-RepliesHome (some (str kind)) msg n = on_kind-RepliesHome kind msg n
    typed-RepliesHome (some (arr vs)) msg n = silent-RepliesHome ip n
    typed-RepliesHome (some (obj d)) msg n = silent-RepliesHome ip n

    handled-RepliesHome :
        (r : Result (Option Fields)) (n : Peer)
        → RepliesHome ip (handled utf8 line_of r (some ip) n)
    unfolding on_message
    handled-RepliesHome (err e) n = swallow-RepliesHome (err e, n) (raises-RepliesHome ip e n)
    handled-RepliesHome (ok none) n = silent-RepliesHome ip n
    handled-RepliesHome (ok (some msg)) n =
        swallow-RepliesHome (on_message utf8 line_of msg (some ip) n)
          (typed-RepliesHome (lookup (text "type") msg) msg n)

    -- Whatever line comes from a client at an address, the blocks that the node sends in reply, if it
    -- sends any, go to that address, and they are no more than a batch.
    pub handle-RepliesHome :
        (line : Text) (n : Peer) → RepliesHome ip (handle utf8 line_of line (some ip) n)
    unfolding handle
    handle-RepliesHome line n = handled-RepliesHome (read_line max_msg_bytes line) n
