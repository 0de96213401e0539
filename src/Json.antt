-- ===== src/Json.antt =====
-- Values of a parsed JSON body. An object lists its fields once each, in `Object.entries` order.
-- A number is an integer, or one that `Number.isInteger` refuses.
use dreamsso.Common.{
  String, Bool, Option, none, some, List, [], ◌∷◌, ◌==◌, string_eq, if◌then◌else◌,
}
use dreamsso.Common.Int.{ℤ}

mutual
  pub data Json : Type 0 where
    null : Json
    boolean : Bool → Json
    number : ℤ → Json
    fractional : Json
    text : String → Json
    array : Elems → Json
    object : Fields → Json

  pub data Elems : Type 0 where
    nil : Elems
    cons : Json → Elems → Elems

  pub data Fields : Type 0 where
    end : Fields
    field : String → Json → Fields → Fields

abbrev pub entries : Fields → List (String × Json)
entries end = []
entries (field k v fs) = (k, v) ∷ entries fs

-- `body[key]`, `undefined` when there is no such key.
abbrev pub get : String → Fields → Option Json
get key end = none
get key (field k v fs) = if k == key then some v else get key fs

-- `typeof value === 'string' ? value : undefined`.
abbrev pub as_text : Option Json → Option String
as_text (some (text s)) = some s
as_text _ = none
