-- ===== src/Rpc/Guards.antt =====
-- The token of a server guards its node.
use mindees_blockchain.Prelude.{ℕ, ◌≡◌, ◌≢◌, true, false, Text, Text_eq, text_eq_iff, arith, refl}
use mindees_blockchain.Dict.{member}
use mindees_blockchain.Json.{Json, Fields, str, truthy}
use mindees_blockchain.Primitives.{Primitives}
use mindees_blockchain.Service.{Service}
use mindees_blockchain.Rpc.{bearer, may_call, dispatch, serve, do_post, read_request, write_methods}
use mindees_blockchain.Result.{Result, ok, err}

may_call-eq-true :
    (token auth method : Text)
    → truthy (str token) ≡ true
    → bearer auth ≢ token
    → may_call token auth method ≡ ok true
    → member method write_methods ≡ false
unfolding may_call
may_call-eq-true token auth method given apart h = ground (arith, text_eq_iff (bearer auth) token)

module _ ⦃p : Primitives⦄ (line_of : Json → Text) (clock : Json) where
  dispatch_reads :
      (method : Text) (params : Json) (s : Service)
      → member method write_methods ≡ false
      → (dispatch line_of clock method params s).1 ≡ s
  unfolding dispatch member
  dispatch_reads method params s h = ground arith

  serve_keeps :
      (token auth : Text) (r : Result Fields) (s : Service)
      → truthy (str token) ≡ true
      → bearer auth ≢ token
      → (serve line_of clock token auth r s).1 ≡ s
  unfolding serve
  serve_keeps token auth (err e) s given apart = refl
  serve_keeps token auth (ok d) s given apart =
      grind (arith, may_call-eq-true token auth, dispatch_reads)

  -- If the server has a token and the Authorization header does not bear it, then no request of any
  -- length and body changes the node.
  pub do_post_guarded :
      (token auth body : Text) (length : ℕ) (s : Service)
      → truthy (str token) ≡ true
      → bearer auth ≢ token
      → (do_post line_of clock token length auth body s).1 ≡ s
  unfolding do_post
  do_post_guarded token auth body length s given apart =
      ground (arith, serve_keeps token auth (read_request body) s given apart)
