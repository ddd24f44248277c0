-- ===== src/Tests/Blocks/Saved.antt =====
-- The file that holds the first block of the toy chain.
use mindees_blockchain.Prelude.{
  ◌≡◌, ◌++◌, refl, Bool, true, false, ◌&&◌, [], ◌∷◌, Text, All, eqb, not, arith,
}
use mindees_blockchain.Network.Codec.{encode_block, encode_txs, encode_tx}
use mindees_blockchain.Storage.{newline, carriage_return}
use mindees_blockchain.Storage.Reload.{IsLine, Reads, after_genesis}
use mindees_blockchain.Tests.Toy.{toy, write}
use mindees_blockchain.Tests.Blocks.{the_program, chain₁}

abbrev but_last : Text → Text
but_last [] = []
but_last (c ∷ []) = []
but_last (c ∷ d ∷ s) = c ∷ but_last (d ∷ s)

abbrev rest_of : Text → Text
rest_of [] = []
rest_of (c ∷ s) = s

abbrev is_one_line : Text → Bool
is_one_line [] = true
is_one_line (c ∷ s) = not (eqb c newline) && (not (eqb c carriage_return) && is_one_line s)

All-of_one_line :
    (s : Text)
    → is_one_line s ≡ true
    → All (λ c. eqb c newline ≡ false) s × All (λ c. eqb c carriage_return ≡ false) s
All-of_one_line [] h = (tt, tt)
All-of_one_line (c ∷ s) h = ground (arith, All-of_one_line s)

IsLine-of_tests :
    (s : Text) → s ≡ b'{' ∷ but_last (rest_of s) ++ b'}' ∷ [] → is_one_line s ≡ true → IsLine s
IsLine-of_tests s braces one_line = record {
  inner = but_last (rest_of s);
  braces = braces;
  one_line = (All-of_one_line s one_line).0;
  no_return = (All-of_one_line s one_line).1;
}

pub block₁_Reads : All (Reads write) (after_genesis chain₁)
unfolding the_program encode_block encode_txs encode_tx
block₁_Reads = (record { rooted = refl; line = IsLine-of_tests _ refl refl; comes_back = refl }, tt)
