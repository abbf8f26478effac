-- ===== src/Json.antt =====
-- The values that `json.loads` gives, and what the code asks of them.
-- A `float` that equals an integer is kept as that integer; of another only its text is kept.
use nixos_control_manager.Prelude.{
  ℕ, Bool, true, false, String, Option, none, some, List, [], ◌∷◌, ◌==◌, if◌then◌else◌, contains,
  ◌&&◌, zero, suc,
}

-- `negsuc n` is -(n + 1).
pub data ℤ : Type 0 where
  pos : ℕ → ℤ
  negsuc : ℕ → ℤ

pub data Float : Type 0 where
  whole : ℤ → Float
  other : String → Float

mutual
  pub data Json : Type 0 where
    null : Json
    bool : Bool → Json
    int : ℤ → Json
    float : Float → Json
    str : String → Json
    arr : Items → Json
    obj : Fields → Json

  pub data Items : Type 0 where
    nil : Items
    cons : Json → Items → Items

  pub data Fields : Type 0 where
    end : Fields
    field : String → Json → Fields → Fields

-- `raw.get(key)` on a mapping
unfoldable pub get : String → Fields → Option Json
get k end = none
get k (field j v fs) = let rest = get k fs in if j == k then some v else rest

abbrev pub keys : Fields → List String
keys end = []
keys (field k v fs) = k ∷ keys fs

abbrev pub elements : Items → List Json
elements nil = []
elements (cons v vs) = v ∷ elements vs

abbrev pub items : List Json → Items
items [] = nil
items (v ∷ vs) = cons v (items vs)

abbrev pub strings : List String → Json
strings ss = arr (texts ss)
  where
    texts : List String → Items
    texts [] = nil
    texts (s ∷ ss) = cons (str s) (texts ss)

-- `set(a) - set(b)` is empty
unfoldable pub covers : List String → List String → Bool
covers bs [] = true
covers bs (a ∷ as_) = contains bs a && covers bs as_

-- Python's `value == 1`, which `True` and `1.0` pass too.
unfoldable pub is_one : Json → Bool
is_one (bool b) = b
is_one (int (pos (suc zero))) = true
is_one (float (whole (pos (suc zero)))) = true
is_one _ = false

-- A `dict` literal.
abbrev pub fields : List (String × Json) → Fields
fields [] = end
fields ((k, v) ∷ kvs) = field k v (fields kvs)

abbrev pub object : List (String × Json) → Json
object kvs = obj (fields kvs)

-- `raw[key] = value`
unfoldable pub put : String → Json → Fields → Fields
put k v end = field k v end
put k v (field j w fs) = if j == k then field k v fs else field j w (put k v fs)

-- `value == text`
abbrev pub is_text : String → Option Json → Bool
is_text t (some (str s)) = s == t
is_text t _ = false
