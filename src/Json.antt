-- ===== src/Json.antt =====
-- The values that the wire and the evidence fields carry: Python objects as JSON gives them.
use mindees_blockchain.Prelude.{
  ℕ, ℤ, pos, negsuc, Bool, true, false, Option, none, some, [], ◌∷◌, Text, ◌==◌, if◌then◌else◌, eqb,
  not,
}
use mindees_blockchain.Prelude.{Text_eq}

-- A float is kept as its text.
mutual
  pub data Json : Type 0 where
    null : Json
    bool : Bool → Json
    int : ℤ → Json
    float : Text → Json
    str : Text → Json
    arr : Items → Json
    obj : Fields → Json

  pub data Items : Type 0 where
    nil : Items
    cons : Json → Items → Items

  pub data Fields : Type 0 where
    end : Fields
    field : Text → Json → Fields → Fields

-- `obj[key]`, `none` standing for the KeyError
unfoldable pub lookup : Text → Fields → Option Json
lookup k end = none
lookup k (field j v fs) = if k == j then some v else lookup k fs

-- core.is_units: a plain int that is not negative. `bool` is not `int` here, as the code wants it.
unfoldable pub is_units : Json → Bool
is_units (int (pos n)) = true
is_units _ = false

-- The number of a value that passed `is_units`.
unfoldable pub units : Json → ℕ
units (int (pos n)) = n
units _ = 0

abbrev pub num : ℕ → Json
num n = int (pos n)

-- `bool(value)`. A float zero is false in Python; floats are refused wherever this is asked.
unfoldable pub truthy : Json → Bool
truthy null = false
truthy (bool b) = b
truthy (int (pos n)) = not (eqb n 0)
truthy (int (negsuc n)) = true
truthy (float t) = true
truthy (str []) = false
truthy (str (c ∷ s)) = true
truthy (arr nil) = false
truthy (arr (cons x xs)) = true
truthy (obj end) = false
truthy (obj (field k v fs)) = true

-- `isinstance(value, str)`, with the text
unfoldable pub as_str : Json → Option Text
as_str (str s) = some s
as_str _ = none
