-- ===== src/Prelude/Json.antt =====
-- The values that the code reads from outside as `unknown`, over any type of numbers, and the helpers
-- of daemon/src/infra/record-utils.ts that read them. A missing field is `none`, which stands for
-- `undefined`; an object has its own fields in their order.
use mathlib.Core.Bool.{Bool}
use mathlib.Core.Option.{Option, none, some}
use mathlib.Core.List.{List, [], ◌∷◌}
use Prim.Native.String.{String}
use text.Mathlib.Text.{◌==◌}
use repomap_core.Prelude.Tests.{if◌then◌else◌, first_some, or_else}

module _ (Num : Type 0) where
  mutual
    pub data Json : Type 0 where
      null : Json
      bool : Bool → Json
      num : Num → Json
      str : String → Json
      arr : Items → Json
      obj : Fields → Json

    pub data Items : Type 0 where
      nil : Items
      cons : Json → Items → Items

    pub data Fields : Type 0 where
      end : Fields
      field : String → Json → Fields → Fields

  abbrev pub get : Fields → String → Option Json
  get end key = none
  get (field k v fs) key = let rest = get fs key in if k == key then some v else rest

  -- `asRecord(value)`: an array has none of the named fields that are read of it
  abbrev pub as_record : Option Json → Fields
  as_record (some (obj fs)) = fs
  as_record _ = end

  -- `typeof value === "string"`
  abbrev pub as_text : Option Json → Option String
  as_text (some (str s)) = some s
  as_text _ = none

  -- a text that is not empty
  abbrev pub as_filled_text : Option Json → Option String
  as_filled_text (some (str s)) = if s == "" then none else some s
  as_filled_text _ = none

  -- the items of an array
  abbrev pub as_items : Option Json → Option Items
  as_items (some (arr xs)) = some xs
  as_items _ = none

  -- `getStringField(data, keys)`: the first of the fields that is a text and not empty
  abbrev pub get_string_field : Fields → List String → Option String
  get_string_field fs [] = none
  get_string_field fs (key ∷ keys) =
      first_some (as_filled_text (get fs key)) (get_string_field fs keys)

  -- `getArrayField(data, keys)`: the first of the fields that is an array, else an empty one
  abbrev pub get_array_field : Fields → List String → Items
  get_array_field fs [] = nil
  get_array_field fs (key ∷ keys) = or_else (as_items (get fs key)) (get_array_field fs keys)

  -- the texts among the items
  abbrev pub texts : Items → List String
  texts nil = []
  texts (cons (str s) xs) = s ∷ texts xs
  texts (cons x xs) = texts xs

  -- `typeof value === "number"`
  abbrev pub as_number : Option Json → Option Num
  as_number (some (num x)) = some x
  as_number _ = none
