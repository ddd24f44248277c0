-- ===== src/Tests/Toy.antt =====
-- Toy primitives and a chain of two blocks over them, on which the theorems run.
use mindees_blockchain.Prelude.{
  ◌≡◌, refl, ℕ, ◌+◌, ◌*◌, ◌/◌, ◌%◌, true, false, Option, none, some, [], ◌∷◌, ◌++◌, Text, pos,
  negsuc, eqb, zero, suc, length, drop, Bool, if◌then◌else◌,
}
use mindees_blockchain.Json.{
  Json, null, bool, int, float, str, arr, obj, Items, nil, cons, Fields, end, field, num,
}
use mindees_blockchain.Primitives.{Primitives, Bytes}
use mindees_blockchain.Core.Signature.{Wallet}
use mindees_blockchain.Result.{Result, ok, err}

-- A checksum of four bytes.
abbrev checksum : ℕ → Bytes → ℕ
checksum acc [] = acc
checksum acc (b ∷ bs) = checksum ((257 * acc + b + 1) % 4294967291) bs

abbrev four_bytes : ℕ → Bytes
four_bytes n = n / 16777216 % 256 ∷ n / 65536 % 256 ∷ n / 256 % 256 ∷ n % 256 ∷ []

abbrev mutual
  pub write : Json → Text
  write null = 110 ∷ []
  write (bool true) = 116 ∷ []
  write (bool false) = 102 ∷ []
  write (int (pos n)) = 43 ∷ n ∷ []
  write (int (negsuc n)) = 45 ∷ n ∷ []
  write (float t) = 46 ∷ t
  write (str s) = 34 ∷ s ++ 34 ∷ []
  write (arr xs) = 91 ∷ write_items xs
  write (obj fs) = 123 ∷ write_fields fs

  pub write_items : Items → Text
  write_items nil = 93 ∷ []
  write_items (cons x xs) = write x ++ write_items xs

  pub write_fields : Fields → Text
  write_fields end = 125 ∷ []
  write_fields (field k v fs) = k ++ 58 ∷ write v ++ write_fields fs

abbrev pub decode_toy : Bytes → Option (ℕ × ℕ)
decode_toy (r ∷ s ∷ []) = some (r, s)
decode_toy _ = none

-- The text up to a character, and what follows it.
abbrev cut : ℕ → Text → Text × Text
cut c [] = ([], [])
cut c (d ∷ s) = let (before, after) = cut c s in if eqb c d then ([], s) else (d ∷ before, after)

-- Reads the values that `write` writes, but for floats, negative numbers and the constants.
abbrev read_number : Text → Option (Json × Text)
read_number [] = none
read_number (n ∷ s) = some (num n, s)

abbrev starts : ℕ → Text → Bool
starts c [] = false
starts c (d ∷ s) = eqb c d

abbrev add_item : Json → Option (Items × Text) → Option (Items × Text)
add_item v none = none
add_item v (some (xs, rest)) = some (cons v xs, rest)

abbrev add_field : Text → Json → Option (Fields × Text) → Option (Fields × Text)
add_field k v none = none
add_field k v (some (fs, rest)) = some (field k v fs, rest)

abbrev as_array : Option (Items × Text) → Option (Json × Text)
as_array none = none
as_array (some (xs, rest)) = some (arr xs, rest)

abbrev as_object : Option (Fields × Text) → Option (Json × Text)
as_object none = none
as_object (some (fs, rest)) = some (obj fs, rest)

abbrev mutual
  read_value : ℕ → Text → Option (Json × Text)
  read_value zero s = none
  read_value (suc f) [] = none
  read_value (suc f) (c ∷ s) = elim (eqb c b'"') [
    | true ↦ some (str (cut b'"' s).0, (cut b'"' s).1)
    | false ↦ elim (eqb c b'+') [
      | true ↦ read_number s
      | false ↦ elim (eqb c b'[') [
        | true ↦ as_array (read_items f s)
        | false ↦ elim (eqb c b'{') [ true ↦ as_object (read_fields f s) | false ↦ none ]
      ]
    ]
  ]

  read_items : ℕ → Text → Option (Items × Text)
  read_items zero s = none
  read_items (suc f) s = elim (starts b']' s) [
    | true ↦ some (nil, drop 1 s)
    | false ↦ elim (read_value f s) [
      | none ↦ none
      | some (v, rest) ↦ add_item v (read_items f rest)
    ]
  ]

  read_fields : ℕ → Text → Option (Fields × Text)
  read_fields zero s = none
  read_fields (suc f) s = elim (starts b'}' s) [
    | true ↦ some (end, drop 1 s)
    | false ↦ elim (read_value f (cut b':' s).1) [
      | none ↦ none
      | some (v, rest) ↦ add_field (cut b':' s).0 v (read_fields f rest)
    ]
  ]

abbrev the_value : Option (Json × Text) → Option Json
the_value none = none
the_value (some (j, rest)) = some j

abbrev read : Text → Option Json
read s = the_value (read_value (suc (length s)) s)

instance abbrev pub toy : Primitives
toy = record {
  sha256 = λ bs. four_bytes (checksum 7 bs);
  dumps = write;
  loads = read;
  decode_dss = decode_toy;
  encode_dss = λ r s. r ∷ s ∷ [];
  ec_verify = λ key sig message. true;
  ec_public = λ secret. secret ∷ [];
  ec_sign = λ secret message. 1 ∷ 1 ∷ [];
}

abbrev pub alice : Wallet
alice = record { secret = 1 }

abbrev pub bob : Wallet
bob = record { secret = 2 }

-- The value of a call that succeeds.
abbrev pub Succeeds : {A : Type 0} → Result A → Type 0
Succeeds (ok a) = Unit
Succeeds (err e) = ⊥

abbrev pub result_of : {A : Type 0} → (r : Result A) → Succeeds r → A
result_of (ok a) s = a
result_of (err e) s = absurd s

pub result_of-Succeeds : {A : Type 0} (r : Result A) (s : Succeeds r) → r ≡ ok (result_of r s)
result_of-Succeeds (ok a) s = refl
result_of-Succeeds (err e) s = absurd s
