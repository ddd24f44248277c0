-- ===== src/Tests/Blocks/Conflict.antt =====
-- Two chains from one genesis that finalize conflicting blocks, by the votes of one validator.
use mindees_blockchain.Prelude.{
  ℕ, ◌≡◌, ◌≢◌, ◌≤◌, ◌<◌, ◌&&◌, ◌||◌, Bool, true, some, [], ◌∷◌, refl, Text, Text_eq, All, arith,
  ltb, not, text_eq_iff,
}
use mindees_blockchain.Dict.{Dict, get, contains, get→contains}
use mindees_blockchain.Json.{num}
use mindees_blockchain.Core.Block.{Block, hash}
use mindees_blockchain.Core.Chain.{Balances}
use mindees_blockchain.Core.Transaction.{Transaction}
use mindees_blockchain.Consensus.State.{PosChain}
use mindees_blockchain.Consensus.Rules.{submit}
use mindees_blockchain.Consensus.Build.{seal_block, vote_tx}
use mindees_blockchain.Consensus.Finality.Records.{ffg}
use mindees_blockchain.Consensus.Finality.Chains.{FreshRun, started, accepted}
use mindees_blockchain.Consensus.Finality.Accountable.{AreApart}
use mindees_blockchain.Consensus.Finality.Culprits.{IsStatic}
use mindees_blockchain.Result.{ok}
use mindees_blockchain.Tests.Toy.{alice, result_of, result_of-Succeeds, toy}
use mindees_blockchain.Tests.Blocks.{the_program, chain₀, chain₁, block₁, first}

-- Alice votes for the first block and then for its successor.
abbrev left_vote₂ : Transaction
unfolding the_program
left_vote₂ = result_of (vote_tx alice (hash chain₀.head) 0 (hash block₁) 1 1 1) tt

abbrev pub left₂ : Block
unfolding the_program
left₂ = result_of (seal_block (hash block₁) 2 alice (left_vote₂ ∷ []) (num 2) (num 0)) tt

abbrev pub left_chain₂ : PosChain
unfolding the_program
left_chain₂ = result_of (submit chain₁ left₂) tt

pub left_second : submit chain₁ left₂ ≡ ok left_chain₂
unfolding the_program
left_second = result_of-Succeeds (submit chain₁ left₂) tt

abbrev left_vote₃ : Transaction
unfolding the_program
left_vote₃ = result_of (vote_tx alice (hash block₁) 1 (hash left₂) 2 2 1) tt

abbrev pub left₃ : Block
unfolding the_program
left₃ = result_of (seal_block (hash left₂) 3 alice (left_vote₃ ∷ []) (num 3) (num 0)) tt

abbrev pub left_chain₃ : PosChain
unfolding the_program
left_chain₃ = result_of (submit left_chain₂ left₃) tt

pub left_third : submit left_chain₂ left₃ ≡ ok left_chain₃
unfolding the_program
left_third = result_of-Succeeds (submit left_chain₂ left₃) tt

-- She also votes for another first block and its successor.
abbrev pub right₁ : Block
unfolding the_program
right₁ = result_of (seal_block (hash chain₀.head) 1 alice [] (num 9) (num 0)) tt

abbrev pub right_chain₁ : PosChain
unfolding the_program
right_chain₁ = result_of (submit chain₀ right₁) tt

pub right_first : submit chain₀ right₁ ≡ ok right_chain₁
unfolding the_program
right_first = result_of-Succeeds (submit chain₀ right₁) tt

abbrev right_vote₂ : Transaction
unfolding the_program
right_vote₂ = result_of (vote_tx alice (hash chain₀.head) 0 (hash right₁) 1 0 1) tt

abbrev pub right₂ : Block
unfolding the_program
right₂ = result_of (seal_block (hash right₁) 2 alice (right_vote₂ ∷ []) (num 10) (num 0)) tt

abbrev pub right_chain₂ : PosChain
unfolding the_program
right_chain₂ = result_of (submit right_chain₁ right₂) tt

pub right_second : submit right_chain₁ right₂ ≡ ok right_chain₂
unfolding the_program
right_second = result_of-Succeeds (submit right_chain₁ right₂) tt

abbrev right_vote₃ : Transaction
unfolding the_program
right_vote₃ = result_of (vote_tx alice (hash right₁) 1 (hash right₂) 2 1 1) tt

abbrev pub right₃ : Block
unfolding the_program
right₃ = result_of (seal_block (hash right₂) 3 alice (right_vote₃ ∷ []) (num 11) (num 0)) tt

abbrev pub right_chain₃ : PosChain
unfolding the_program
right_chain₃ = result_of (submit right_chain₂ right₃) tt

pub right_third : submit right_chain₂ right₃ ≡ ok right_chain₃
unfolding the_program
right_third = result_of-Succeeds (submit right_chain₂ right₃) tt

left_run₁ : FreshRun chain₀ chain₁
unfolding the_program
left_run₁ = accepted block₁ started (refl, refl) first

left_run₂ : FreshRun chain₀ left_chain₂
unfolding the_program
left_run₂ = accepted left₂ left_run₁ (refl, refl) left_second

pub left_run : FreshRun chain₀ left_chain₃
unfolding the_program
left_run = accepted left₃ left_run₂ (refl, refl) left_third

right_run₁ : FreshRun chain₀ right_chain₁
unfolding the_program
right_run₁ = accepted right₁ started (refl, refl) right_first

right_run₂ : FreshRun chain₀ right_chain₂
unfolding the_program
right_run₂ = accepted right₂ right_run₁ (refl, refl) right_second

pub right_run : FreshRun chain₀ right_chain₃
unfolding the_program
right_run = accepted right₃ right_run₂ (refl, refl) right_third

same_snapshots :
    (stakes : Balances) (d : Dict Text Balances)
    → All (λ (e : Text × Balances). e.1 ≡ stakes) d
    → (h : Text) (s : Balances) → get h d ≡ some s
    → s ≡ stakes
unfolding get
same_snapshots stakes [] all h s e = cc
same_snapshots stakes ((k, v) ∷ d) all h s e = ground (arith, same_snapshots stakes d all.1 h s)

pub left-IsStatic : IsStatic (ffg left_chain₃.self.state) chain₀.self.state.stakes
unfolding the_program
left-IsStatic = record {
  snapshots =
      same_snapshots chain₀.self.state.stakes left_chain₃.self.state.ffg_stake
        (refl, (refl, (refl, (refl, tt))));
  nobody = refl;
}

pub right-IsStatic : IsStatic (ffg right_chain₃.self.state) chain₀.self.state.stakes
unfolding the_program
right-IsStatic = record {
  snapshots =
      same_snapshots chain₀.self.state.stakes right_chain₃.self.state.ffg_stake
        (refl, (refl, (refl, (refl, tt))));
  nobody = refl;
}

-- Whether the entries from a height on are missing in another dict.
apart_from : ℕ → Dict Text ℕ → Dict Text ℕ → Bool
apart_from n [] d = true
apart_from n ((h, m) ∷ c) d = (ltb m n || not (contains h d)) && apart_from n c d

apart_from_lem :
    (n : ℕ) (c d : Dict Text ℕ) (h : Text) (m : ℕ)
    → apart_from n c d ≡ true
    → n ≤ m
    → get h c ≡ some m
    → get h d ≢ some m
unfolding apart_from get
apart_from_lem n [] d h m all le e f = cc
apart_from_lem n ((j, k) ∷ c) d h m all le e f =
    ground (arith, text_eq_iff h j, get→contains h m d f, apart_from_lem n c d h m)

pub both_apart :
    AreApart
      (ffg left_chain₃.self.state)
      (ffg right_chain₃.self.state)
      left_chain₃.self.state.finalized.1
unfolding the_program apart_from
both_apart h m =
    apart_from_lem 1 left_chain₃.self.state.ffg_height right_chain₃.self.state.ffg_height h m refl

pub final_above : 0 < left_chain₃.self.state.finalized.1
unfolding the_program
final_above = omega arith

pub final_ordered : left_chain₃.self.state.finalized.1 ≤ right_chain₃.self.state.finalized.1
unfolding the_program
final_ordered = omega arith
