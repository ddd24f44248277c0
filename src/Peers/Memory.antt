-- ===== src/Peers/Memory.antt =====
-- The memory against repeated messages is bounded, and knows each message that just came.
use mindees_blockchain.Prelude.{
  ℕ, ◌+◌, ◌≤◌, ◌≡◌, not, List, [], ◌∷◌, Text, Text_eq, arith, length, drop, length-append,
}
use mindees_blockchain.Dict.{member}
use mindees_blockchain.Peers.{remember}

length-drop_one : (l : List Text) → length (drop 1 l) + 1 ≤ length l + 1
length-drop_one [] = omega arith
length-drop_one (x ∷ xs) = omega arith

-- Remembering keeps the memory within its bound, and answers that the message is new exactly if it
-- is not in the memory.
remember-bounded :
    (cap : ℕ) (key : Text) (seen : List Text)
    → length seen ≤ cap
    → (length (remember cap key seen).1 ≤ cap) × ((remember cap key seen).0 ≡ not (member key seen))
unfolding remember
remember-bounded cap key [] h = ground (arith, length-append [] (key ∷ []))
remember-bounded cap key (x ∷ seen) h = ground (arith, length-append seen (key ∷ []))
