-- ===== src/Storage.antt =====
-- storage.BlockStore: the file of blocks, one JSON text in a line, and its replay. The file is its
-- text; `line_of` stands for json.dumps with its default separators.
pub mod Lines
pub mod Reload
pub mod GenesisFile
pub mod GenesisParams
use mindees_blockchain.Prelude.{
  ℕ, ◌+◌, Bool, true, false, ◌&&◌, ◌||◌, List, [], ◌∷◌, ◌++◌, Text, eqb, leb, if◌then◌else◌, length,
}
use mathlib.Core.List.{reverse}
use mindees_blockchain.Json.{Json}
use mindees_blockchain.Primitives.{Primitives}
use mindees_blockchain.Core.Block.{Block}
use mindees_blockchain.Network.Codec.{encode_block, decode_block}
use mindees_blockchain.Consensus.State.{PosChain}
use mindees_blockchain.Consensus.Genesis.{GenesisArgs, init}
use mindees_blockchain.Consensus.Rules.{submit}
use mindees_blockchain.Result.{
  Result, ok, err, invalid, key_error, value_error, type_error, ill_typed, attribute_error,
  system_exit, or_raise, ◌>>=◌, malformed_json, corrupt_store,
}

abbrev pub newline : ℕ
newline = 10

-- str.strip on ASCII text
abbrev pub is_blank : ℕ → Bool
is_blank c = eqb c 32 || ((leb 9 c && leb c 13) || (leb 28 c && leb c 31))

abbrev pub strip_left : Text → Text
strip_left [] = []
strip_left (c ∷ s) = let rest = strip_left s in if is_blank c then rest else c ∷ s

abbrev pub strip : Text → Text
strip s = reverse (strip_left (reverse (strip_left s)))

-- `if stripped: yield stripped`
abbrev pub keep_line : Text → List Text → List Text
keep_line [] rest = rest
keep_line (c ∷ s) rest = (c ∷ s) ∷ rest

-- The lines that end in a newline; `line` is what was read of the next one, backwards. What follows
-- the last newline was never committed.
unfoldable pub lines_from : Text → Text → List Text
lines_from line [] = []
lines_from line (c ∷ s) = elim (eqb c newline) [
  | true ↦ keep_line (strip (reverse line)) (lines_from [] s)
  | false ↦ lines_from (c ∷ line) s
]

abbrev pub carriage_return : ℕ
carriage_return = 13

-- What open() in text mode reads: a carriage return, with a newline after it or not, is a newline.
-- The test says that the character before was a carriage return.
unfoldable pub universal_newlines : Bool → Text → Text
universal_newlines after [] = []
universal_newlines after (c ∷ s) = elim (eqb c carriage_return) [
  | true ↦ newline ∷ universal_newlines true s
  | false ↦ elim (after && eqb c newline) [
    | true ↦ universal_newlines false s
    | false ↦ c ∷ universal_newlines false s
  ]
]

-- BlockStore._committed_lines
unfoldable pub committed_lines : Text → List Text
unfolding lines_from universal_newlines
committed_lines file = lines_from [] (universal_newlines false file)

-- BlockStore.height, which counts an uncommitted last line too
unfoldable pub height : Text → ℕ
unfolding lines_from universal_newlines
height file = length (lines_from [] (universal_newlines false file ++ newline ∷ []))

-- BlockStore.append
unfoldable pub append : (Json → Text) → Text → Block → Text
append line_of file block = file ++ (line_of (encode_block block) ++ newline ∷ [])

-- `except (ValidationError, json.JSONDecodeError, KeyError, TypeError)`
abbrev pub or_corrupt {ℓ} : {A : Type ℓ} → Result A → Result A
or_corrupt (ok a) = ok a
or_corrupt (err (invalid r)) = err (invalid corrupt_store)
or_corrupt (err key_error) = err (invalid corrupt_store)
or_corrupt (err type_error) = err (invalid corrupt_store)
or_corrupt (err value_error) = err value_error
or_corrupt (err attribute_error) = err attribute_error
or_corrupt (err system_exit) = err system_exit
or_corrupt (err ill_typed) = err ill_typed

module _ ⦃p : Primitives⦄ where
  -- A JSONDecodeError is among the exceptions that mark the store as corrupt.
  abbrev parse_line : Text → Result Block
  parse_line line = or_raise (p.loads line) (invalid malformed_json) >>= decode_block

  -- One step of BlockStore.iter_blocks
  unfoldable pub read_block : Text → Result Block
  read_block line = or_corrupt (parse_line line)

  unfoldable pub replay_lines : PosChain → List Text → Result PosChain
  replay_lines c [] = ok c
  replay_lines c (line ∷ lines) = do
    c' ← or_corrupt (parse_line line >>= submit c)
    replay_lines c' lines

  -- BlockStore.load, over genesis arguments already read
  unfoldable pub load : GenesisArgs → Text → Result PosChain
  unfolding committed_lines replay_lines
  load args file = do c ← init args; replay_lines c (committed_lines file)
