-- ===== src/Hub/Types/Json.antt =====
-- JSON values as encoding/json gives them, and the messages of the protocol.
use go_signing_server_anywhe.Prelude.{
  ℕ, String, Bool, none, some, List, [], ◌∷◌, ℤ, nat_eq, int_eq, string_eq,
}
use go_signing_server_anywhe.Prelude.Map.{get}

-- A finite float64: plus or minus `mantissa * 2 ^ up / 2 ^ down`.
pub record Float : Type 0 where
  pub negative : Bool
  pub mantissa : ℕ
  pub up : ℕ
  pub down : ℕ

-- `int` is a Go int or int64, which the server puts into the messages that it builds.
mutual
  pub data Value : Type 0 where
    null : Value
    bool : Bool → Value
    float : Float → Value
    int : ℤ → Value
    str : String → Value
    arr : Items → Value
    obj : Fields → Value

  pub data Items : Type 0 where
    nil : Items
    item : Value → Items → Items

  pub data Fields : Type 0 where
    end : Fields
    entry : String → Value → Fields → Fields

-- map[string]any
abbrev pub Msg : Type 0
Msg = List (String × Value)

-- msg[key], which is nil where the key is missing
unfoldable pub field : Msg → String → Value
field m key = elim (get key m) [ none ↦ null | some v ↦ v ]

unfoldable pub items : Items → List Value
items nil = []
items (item v vs) = v ∷ items vs

unfoldable pub fields : Fields → Msg
fields end = []
fields (entry k v r) = (k, v) ∷ fields r
