-- ===== src/Prelude/Json.antt =====
-- The part of `serde_json::Value` that the code uses. An object holds each key once.
use Prim.Native.Nat.{ℕ, ◌^◌, ◌%◌, ◌-◌}
use Prim.Native.String.{String}
use mathlib.Core.Bool.{Bool, true, false, ◌&&◌}
use mathlib.Core.Option.{Option, none, some}
use mathlib.Core.List.{List, [], ◌∷◌}
use umbrel_apps.Prelude.Tests.{ltb, if◌then◌else◌}
use umbrel_apps.Prelude.Texts.{str_eq}
use umbrel_apps.Prelude.Int.{ℤ, pos, negsuc, leb_ℤ}
use umbrel_apps.Prelude.Float.{F64, le_f64}

mutual
  pub data Json : Type 0 where
    null : Json
    bool : Bool → Json
    int : ℤ → Json
    float : F64 → Json
    text : String → Json
    array : Items → Json
    object : Fields → Json

  pub data Items : Type 0 where
    no_items : Items
    item : Json → Items → Items

  pub data Fields : Type 0 where
    no_fields : Fields
    field : String → Json → Fields → Fields

abbrev field_of : String → Fields → Option Json
field_of key no_fields = none
field_of key (field name value rest) =
    let later = field_of key rest in if str_eq name key then some value else later

-- `v.get(key)`.
abbrev pub get : String → Json → Option Json
get key (object fields) = field_of key fields
get key _ = none

abbrev pub items_of : List Json → Items
items_of [] = no_items
items_of (v ∷ vs) = item v (items_of vs)

abbrev pub list_of : Items → List Json
list_of no_items = []
list_of (item v vs) = v ∷ list_of vs

abbrev pub as_array : Json → Option (List Json)
as_array (array items) = some (list_of items)
as_array _ = none

abbrev pub as_bool : Json → Option Bool
as_bool (bool b) = some b
as_bool _ = none

-- The object with `key` set: in its place, or behind the others.
abbrev pub set_field : String → Json → Fields → Fields
set_field key new no_fields = field key new no_fields
set_field key new (field name value rest) =
    let later = set_field key new rest in
    if str_eq name key then field name new rest else field name value later

abbrev eq_ℤ : ℤ → ℤ → Bool
eq_ℤ a b = leb_ℤ a b && leb_ℤ b a

abbrev eq_f64 : F64 → F64 → Bool
eq_f64 a b = le_f64 a b && le_f64 b a

abbrev eq_bool : Bool → Bool → Bool
eq_bool true b = b
eq_bool false true = false
eq_bool false false = true

-- `a == b`. The keys of both objects stand in the same order, that of the map.
unfoldable mutual
  pub json_eq : Json → Json → Bool
  json_eq null null = true
  json_eq (bool a) (bool b) = eq_bool a b
  json_eq (int a) (int b) = eq_ℤ a b
  json_eq (float a) (float b) = eq_f64 a b
  json_eq (text a) (text b) = str_eq a b
  json_eq (array a) (array b) = items_eq a b
  json_eq (object a) (object b) = fields_eq a b
  json_eq _ _ = false

  pub items_eq : Items → Items → Bool
  items_eq no_items no_items = true
  items_eq (item a as_) (item b bs) = json_eq a b && items_eq as_ bs
  items_eq _ _ = false

  pub fields_eq : Fields → Fields → Bool
  fields_eq no_fields no_fields = true
  fields_eq (field k a fs) (field j b gs) = str_eq k j && json_eq a b && fields_eq fs gs
  fields_eq _ _ = false

abbrev pub as_str : Json → Option String
as_str (text s) = some s
as_str _ = none

abbrev pub as_i64 : Json → Option ℤ
as_i64 (int (pos n)) = if ltb n (2 ^ 63) then some (pos n) else none
as_i64 (int (negsuc n)) = if ltb n (2 ^ 63) then some (negsuc n) else none
as_i64 _ = none

abbrev pub as_u64 : Json → Option ℕ
as_u64 (int (pos n)) = if ltb n (2 ^ 64) then some n else none
as_u64 _ = none

-- `n as i64` of a whole number, which wraps.
abbrev pub wrap_i64 : ℕ → ℤ
wrap_i64 n = let m = n % 2 ^ 64 in if ltb m (2 ^ 63) then pos m else negsuc (2 ^ 64 - m - 1)

-- A sum of `i64`, which wraps in a release build.
abbrev pub wrap_ℤ : ℤ → ℤ
wrap_ℤ (pos n) = wrap_i64 n
wrap_ℤ (negsuc n) = wrap_i64 (2 ^ 64 - 1 - n % 2 ^ 64)
