-- ===== src/Storage/Reload.antt =====
-- BlockStore.append and BlockStore.load over the blocks of a chain.
use mindees_blockchain.Prelude.{
  ◌≡◌, refl, true, false, All-append, some, List, [], ◌∷◌, ◌++◌, Text, All, arith, eqb, ap, sym,
  ◌∙◌, subst,
}
use mathlib.Core.List.{
  reverse, append_assoc, append-nil, reverse-cons, reverse-append, reverse-reverse,
}
use mindees_blockchain.Primitives.{Primitives}
use mindees_blockchain.Json.{Json, str, truthy}
use mindees_blockchain.Core.Block.{Block}
use mindees_blockchain.Core.Chain.{init_chain}
use mindees_blockchain.Core.Chain.Steps.{submit_block-Accepted}
use mindees_blockchain.Network.Codec.{encode_block}
use mindees_blockchain.Network.Codec.Roundtrip.{decode_rooted_block}
use mindees_blockchain.Consensus.State.{PosChain}
use mindees_blockchain.Consensus.Genesis.{GenesisArgs, init}
use mindees_blockchain.Consensus.Rules.{pos_hooks, submit}
use mindees_blockchain.Consensus.Reach.{Reach, here, next}
use mindees_blockchain.Storage.{
  newline, carriage_return, committed_lines, strip, strip_left, keep_line, lines_from, append,
  replay_lines, load,
}
use mindees_blockchain.Storage.Lines.{lines_from-unfinished, universal_newlines-plain}
use mindees_blockchain.Result.{ok, >>=-eq-ok, Returns}

-- The file after the blocks, the newest first, have been appended in turn.
unfoldable pub save : (Json → Text) → List Block → Text
save line_of [] = []
save line_of (b ∷ bs) = append line_of (save line_of bs) b

-- `chain[1:]`, the newest first
abbrev past : Block → List Block → List Block
past b [] = []
past b (a ∷ older) = b ∷ past a older

abbrev pub after_genesis : PosChain → List Block
after_genesis c = past c.head c.older

-- The text is one line in braces.
pub record IsLine (s : Text) : Type 0 where
  pub inner : Text
  pub braces : s ≡ b'{' ∷ inner ++ b'}' ∷ []
  pub one_line : All (λ c. eqb c newline ≡ false) s
  pub no_return : All (λ c. eqb c carriage_return ≡ false) s

-- The block has a Merkle root, and `json.dumps` writes it as a line that `json.loads` reads back.
pub record Reads ⦃p : Primitives⦄ (line_of : Json → Text) (b : Block) : Type 0 where
  pub rooted : truthy (str b.root) ≡ true
  pub line : IsLine (line_of (encode_block b))
  pub comes_back : p.loads (line_of (encode_block b)) ≡ some (encode_block b)

strip_braces : (inner : Text) → strip (b'{' ∷ inner ++ b'}' ∷ []) ≡ b'{' ∷ inner ++ b'}' ∷ []
strip_braces inner =
    let whole = b'{' ∷ (inner ++ b'}' ∷ []) in
    let turned : reverse whole ≡ b'}' ∷ (reverse inner ++ b'{' ∷ []) =
      reverse-cons b'{' (inner ++ b'}' ∷ [])
      ∙ ap (λ t. t ++ b'{' ∷ []) (reverse-append inner (b'}' ∷ [])) in
    ap (λ t. reverse (strip_left t)) turned ∙ ap reverse (sym turned) ∙ reverse-reverse whole

-- A line is kept as it is.
IsLine-kept : (s : Text) (rest : List Text) → IsLine s → keep_line (strip s) rest ≡ s ∷ rest
IsLine-kept s rest l =
    subst (λ t. keep_line (strip t) rest ≡ t ∷ rest) (sym l.braces)
      (ap (λ t. keep_line t rest) (strip_braces l.inner))

lines_from-line :
    (acc s rest : Text)
    → All (λ c. eqb c newline ≡ false) s
    → lines_from acc (s ++ newline ∷ rest)
      ≡ keep_line (strip (reverse acc ++ s)) (lines_from [] rest)
unfolding lines_from
lines_from-line acc [] rest h = rw (append-nil (reverse acc)) refl
lines_from-line acc (c ∷ s) rest (ne, h) =
    let turned : reverse (c ∷ acc) ++ s ≡ reverse acc ++ c ∷ s =
      ap (λ t. t ++ s) (reverse-cons c acc) ∙ append_assoc (reverse acc) (c ∷ []) s in
    let more : lines_from (c ∷ acc) (s ++ newline ∷ rest)
        ≡ keep_line (strip (reverse acc ++ c ∷ s)) (lines_from [] rest) =
      lines_from-line (c ∷ acc) s rest h
      ∙ ap (λ t. keep_line (strip t) (lines_from [] rest)) turned in
    ground (arith, ne, more)

-- Whatever follows, the lines of the file are read first.
unfoldable IsWhole : Text → Type 0
IsWhole file =
    (rest : Text) → lines_from [] (file ++ rest) ≡ lines_from [] file ++ lines_from [] rest

line_follows :
    (file s rest : Text)
    → IsWhole file
    → IsLine s
    → lines_from [] ((file ++ (s ++ newline ∷ [])) ++ rest)
      ≡ lines_from [] file ++ s ∷ lines_from [] rest
unfolding IsWhole
line_follows file s rest whole l =
    let regrouped : (file ++ (s ++ newline ∷ [])) ++ rest ≡ file ++ (s ++ newline ∷ rest) =
      append_assoc file (s ++ newline ∷ []) rest
      ∙ ap (λ t. file ++ t) (append_assoc s (newline ∷ []) rest) in
    ap (lines_from []) regrouped
    ∙ whole (s ++ newline ∷ rest)
    ∙ ap (λ t. lines_from [] file ++ t)
        (lines_from-line [] s rest l.one_line ∙ IsLine-kept s (lines_from [] rest) l)

append-IsWhole :
    (line_of : Json → Text) (file : Text) (b : Block)
    → IsWhole file
    → IsLine (line_of (encode_block b))
    → IsWhole (append line_of file b)
      × (lines_from [] (append line_of file b)
          ≡ lines_from [] file ++ line_of (encode_block b) ∷ [])
unfolding IsWhole append lines_from
append-IsWhole line_of file b whole l =
    let s = line_of (encode_block b) in
    let grown = file ++ (s ++ newline ∷ []) in
    let last : lines_from [] grown ≡ lines_from [] file ++ s ∷ [] =
      ap (lines_from []) (sym (append-nil grown)) ∙ line_follows file s [] whole l in
    (
      λ rest.
          line_follows file s rest whole l
          ∙ sym (append_assoc (lines_from [] file) (s ∷ []) (lines_from [] rest))
          ∙ ap (λ t. t ++ lines_from [] rest) (sym last),
      last,
    )

module _ ⦃p : Primitives⦄ where
  replay_lines-snoc :
      (c d e : PosChain) (lines : List Text) (line : Text)
      → replay_lines c lines ≡ ok d
      → replay_lines d (line ∷ []) ≡ ok e
      → replay_lines c (lines ++ line ∷ []) ≡ ok e
  unfolding replay_lines
  replay_lines-snoc c d e [] line h k = ground (arith, h, k)
  replay_lines-snoc c d e (l ∷ lines) line h k =
      let (c', read, rest) = >>=-eq-ok _ (λ x. replay_lines x lines) {b = d} h in
      rw read (replay_lines-snoc c' d e lines line rest k)

  replay_lines-block :
      (line_of : Json → Text) (d e : PosChain) (b : Block)
      → Reads line_of b
      → submit d b ≡ ok e
      → replay_lines d (line_of (encode_block b) ∷ []) ≡ ok e
  unfolding replay_lines
  replay_lines-block line_of d e b r taken =
      rw (r.comes_back, decode_rooted_block b r.rooted, taken) refl

module _ ⦃p : Primitives⦄ (line_of : Json → Text) (c : PosChain) where
  -- The file of a chain is whole and replays to the chain.
  abbrev IsSaved : PosChain → Type 0
  IsSaved d =
      IsWhole (save line_of (after_genesis d))
      × (replay_lines c (lines_from [] (save line_of (after_genesis d))) ≡ ok d)

  genesis-IsSaved : c.older ≡ [] → IsSaved c
  unfolding IsWhole save lines_from replay_lines
  genesis-IsSaved young =
      subst
        (λ older.
          IsWhole (save line_of (past c.head older))
          × (replay_lines c (lines_from [] (save line_of (past c.head older))) ≡ ok c))
        (sym young) (λ rest. refl, refl)

  submit-after_genesis :
      (d e : PosChain) (b : Block) → submit d b ≡ ok e → after_genesis e ≡ b ∷ after_genesis d
  unfolding submit
  submit-after_genesis d e b taken =
      ap (λ (x : PosChain). after_genesis x) (submit_block-Accepted pos_hooks d b taken).result

  submit-IsSaved :
      (d e : PosChain) (b : Block) → submit d b ≡ ok e → Reads line_of b → IsSaved d → IsSaved e
  unfolding save
  submit-IsSaved d e b taken r (whole, replayed) =
      let file = save line_of (after_genesis d) in
      let (whole', last) = append-IsWhole line_of file b whole r.line in
      let replayed' : replay_lines c (lines_from [] (append line_of file b)) ≡ ok e =
        ap (replay_lines c) last
        ∙ replay_lines-snoc c d e (lines_from [] file) (line_of (encode_block b)) replayed
            (replay_lines-block line_of d e b r taken) in
      subst
        (λ bs.
          IsWhole (save line_of bs) × (replay_lines c (lines_from [] (save line_of bs)) ≡ ok e))
        (sym (submit-after_genesis d e b taken)) (whole', replayed')

  Reach-IsSaved :
      {d : PosChain} → c.older ≡ [] → Reach c d → All (Reads line_of) (after_genesis d) → IsSaved d
  Reach-IsSaved young here all = genesis-IsSaved young
  Reach-IsSaved young (next {d} {e} b r taken) all =
      let (reads, before) = subst (All (Reads line_of)) (submit-after_genesis d e b taken) all in
      submit-IsSaved d e b taken reads (Reach-IsSaved young r before)

module _ ⦃p : Primitives⦄ where
  init_young : (g : GenesisArgs) → Returns (λ c. c.older ≡ []) (init g)
  unfolding init init_chain
  init_young g = ground arith

  -- A saved file holds no carriage return.
  save-plain :
      (line_of : Json → Text) (bs : List Block)
      → All (Reads line_of) bs
      → All (λ c. eqb c carriage_return ≡ false) (save line_of bs)
  unfolding save append
  save-plain line_of [] all = tt
  save-plain line_of (b ∷ bs) (r, all) =
      All-append _ (save line_of bs) _ (save-plain line_of bs all)
        (All-append _ (line_of (encode_block b)) _ r.line.no_return (refl, tt))

  -- A chain grows from an accepted genesis; each of its blocks has a Merkle root and is written as
  -- one line in braces that is read back as the same JSON value. If its blocks are appended to an
  -- empty file in turn, and a part of one more line follows, with neither a newline nor a carriage
  -- return in it, then a restart, which reads the file in text mode, loads exactly the chain.
  pub load-save :
      (line_of : Json → Text) (g : GenesisArgs) (torn : Text) {c d : PosChain}
      → init g ≡ ok c
      → Reach c d
      → All (Reads line_of) (after_genesis d)
      → All (λ x. eqb x newline ≡ false) torn
      → All (λ x. eqb x carriage_return ≡ false) torn
      → load g (save line_of (after_genesis d) ++ torn) ≡ ok d
  unfolding load IsWhole committed_lines
  load-save line_of g torn {c} {d} start r all unfinished plain =
      let young : c.older ≡ [] = rw start at (init_young g) in
      let (whole, replayed) = Reach-IsSaved line_of c young r all in
      let file = save line_of (after_genesis d) in
      let lines : committed_lines (file ++ torn) ≡ lines_from [] file =
        ap (lines_from []) (
          universal_newlines-plain (file ++ torn)
            (All-append _ file torn (save-plain line_of (after_genesis d) all) plain))
        ∙ whole torn
        ∙ ap (λ t. lines_from [] file ++ t) (lines_from-unfinished [] torn unfinished)
        ∙ append-nil (lines_from [] file) in
      rw start (ap (replay_lines c) lines ∙ replayed)
