-- ===== src/Storage/Lines.antt =====
-- The reading of the store's lines, by BlockStore._committed_lines.
use mindees_blockchain.Prelude.{◌≡◌, refl, false, [], ◌∷◌, Text, arith, eqb, All}
use mindees_blockchain.Storage.{newline, carriage_return, lines_from, universal_newlines}

-- What follows the last newline is no line.
pub lines_from-unfinished :
    (line rest : Text) → All (λ c. eqb c newline ≡ false) rest → lines_from line rest ≡ []
unfolding lines_from
lines_from-unfinished line [] h = refl
lines_from-unfinished line (c ∷ rest) (ne, h) =
    ground (arith, ne, lines_from-unfinished (c ∷ line) rest h)

-- A text without carriage returns is read as it is.
pub universal_newlines-plain :
    (s : Text) → All (λ c. eqb c carriage_return ≡ false) s → universal_newlines false s ≡ s
unfolding universal_newlines
universal_newlines-plain [] h = refl
universal_newlines-plain (c ∷ s) (ne, h) = ground (arith, ne, universal_newlines-plain s h)
