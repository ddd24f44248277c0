-- ===== src/Tests/Network.antt =====
-- The theorems on the server, the sockets, the keystore, the genesis file and the driver.
use mindees_blockchain.Prelude.{
  zero, suc, eqb, if◌then◌else◌, ◌≡◌, ◌≢◌, refl, true, none, some, [], ◌∷◌, ◌++◌, Text, text,
  text_eq, text_eq_iff, arith, Option,
}
use mindees_blockchain.Json.{Json, obj, field, end, Fields, null, num, str, truthy}
use mindees_blockchain.Primitives.{Bytes}
use mindees_blockchain.Core.Encoding.{canonical, hex, from_hex}
use mindees_blockchain.Core.Signature.{address}
use mindees_blockchain.Service.{Service}
use mindees_blockchain.Peers.{Peer}
use mindees_blockchain.Peers.Inbox.{handle}
use mindees_blockchain.Peers.Reflection.{RepliesHome, handle-RepliesHome}
use mindees_blockchain.Keystore.{Cipher, encrypt_secret, decrypt_secret}
use mindees_blockchain.Keystore.Roundtrip.{keystore_roundtrip}
use mindees_blockchain.Rpc.{bearer, do_post}
use mindees_blockchain.Rpc.Guards.{do_post_guarded}
use mindees_blockchain.Storage.{newline}
use mindees_blockchain.Driver.Ballots.{Fits, ballot-Fits}
use mindees_blockchain.Result.{ok, err, value_error}
use mindees_blockchain.Tests.Toy.{toy, alice}
use mindees_blockchain.Tests.Blocks.{chain₁}
use mindees_blockchain.Tests.Blocks.Tree.{young_tree, first_ballot, balloted}

abbrev toy_service : Service
toy_service = record {
  tree = young_tree;
  file = [];
  pool = [];
  validator = some alice;
  autoproduce = true;
}

abbrev toy_peer : Peer
toy_peer = record {
  service = toy_service;
  peers = [];
  seen_tx = [];
  seen_block = [];
  orphans = [];
  voted_targets = [];
  advertise = text "me:1";
}

abbrev empty_line : Json → Text
empty_line j = []

abbrev same_bytes : Text → Bytes
same_bytes t = t

-- A client asks for all blocks.
abbrev request : Text
request =
    canonical (
      obj (
        field (text "type") (str (text "get_blocks"))
          (field (text "reply") (str (text "1.2.3.4:5")) (field (text "since") (num 0) end))))
    ++ newline ∷ []

-- A client submits a transaction.
abbrev submission : Text
submission = canonical (obj (field (text "method") (str (text "submit_tx")) end))

handle-RepliesHome_example :
    RepliesHome
      (text "1.2.3.4")
      (handle same_bytes empty_line request (some (text "1.2.3.4")) toy_peer)
handle-RepliesHome_example =
    handle-RepliesHome (text "1.2.3.4") same_bytes empty_line request toy_peer

no_token : bearer (text "Bearer guess") ≢ text "secret"
unfolding bearer text_eq
no_token e = ground (arith, (text_eq_iff (text "guess") (text "secret")).1 e)

given_token : truthy (str (text "secret")) ≡ true
unfolding truthy
given_token = refl

do_post_guarded_example :
    (do_post empty_line null (text "secret") 23 (text "Bearer guess") submission toy_service).1
    ≡ toy_service
do_post_guarded_example =
    do_post_guarded empty_line null (text "secret") (text "Bearer guess") submission 23 toy_service
      given_token no_token

ballot-Fits_example : Fits (address alice) chain₁ first_ballot
ballot-Fits_example = ballot-Fits (address alice) chain₁ first_ballot balloted

-- A toy cipher: the key in front of the message.
abbrev lock : Bytes → Bytes → Bytes
lock [] m = 0 ∷ m
lock (b ∷ k) m = suc b ∷ lock k m

abbrev unlock : Bytes → Bytes → Option Bytes
unlock [] [] = none
unlock [] (zero ∷ m) = some m
unlock [] (suc c ∷ m) = none
unlock (b ∷ k) [] = none
unlock (b ∷ k) (zero ∷ m) = none
unlock (b ∷ k) (suc c ∷ m) = if eqb b c then unlock k m else none

instance abbrev toy_cipher : Cipher
toy_cipher = record {
  b64 = λ b. b;
  unb64 = λ t. some t;
  utf8 = λ t. t;
  scrypt = λ salt n r p passphrase. some passphrase;
  seal = λ k n m. lock k m;
  unseal = λ k n c. unlock k c;
}

unlock-lock : (k m : Bytes) → unlock k (lock k m) ≡ some m
unlock-lock [] m = refl
unlock-lock (b ∷ k) m = ground (arith, unlock-lock k m)

unlock_other : (k j m : Bytes) → k ≢ j → unlock j (lock k m) ≡ none
unlock_other [] [] m h = absurd (h refl)
unlock_other [] (c ∷ j) m h = refl
unlock_other (b ∷ k) [] m h = refl
unlock_other (b ∷ k) (c ∷ j) m h = ground (arith, h, unlock_other k j m)

abbrev a1 : Text
a1 = text "a1"

a1_reads : from_hex a1 ≡ some (161 ∷ [])
unfolding from_hex
a1_reads = refl

right_not_wrong : text "right" ≢ text "wrong"
unfolding text_eq
right_not_wrong e = ground (arith, (text_eq_iff (text "right") (text "wrong")).1 e)

right_given : truthy (str (text "right")) ≡ true
unfolding truthy
right_given = refl

keystore_roundtrip_example :
    (ks : Fields) × (encrypt_secret a1 (text "right") (1 ∷ []) (2 ∷ []) ≡ ok ks)
    × (decrypt_secret ks (text "right") ≡ ok (hex (161 ∷ [])))
    × (decrypt_secret ks (text "wrong") ≡ err value_error)
keystore_roundtrip_example =
    keystore_roundtrip a1 (text "right") (text "wrong") (1 ∷ []) (2 ∷ []) (161 ∷ []) (text "right")
      (text "wrong") (λ b. refl) (unlock-lock (text "right"))
      (λ m. unlock_other (text "right") (text "wrong") m right_not_wrong) refl refl a1_reads
      right_given
