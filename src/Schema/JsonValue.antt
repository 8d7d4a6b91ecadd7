-- ===== src/Schema/JsonValue.antt =====
-- The JSON values of a `metadata` record, over the type `N` of their numbers.
use codespine.Common.{Bool, Option, none, some, Text, if◌then◌else◌, text_eq}
use codespine.Common.JsMap.{JsMap}

mutual
  pub data Json (N : Type 0) : Type 0 where
    null : Json N
    bool : Bool → Json N
    num : N → Json N
    str : Text → Json N
    arr : Items N → Json N
    obj : Fields N → Json N

  pub data Items (N : Type 0) : Type 0 where
    nil : Items N
    cons : Json N → Items N → Items N

  pub data Fields (N : Type 0) : Type 0 where
    end : Fields N
    field : Text → Json N → Fields N → Fields N

-- `Record<string, unknown>`
abbrev pub Metadata : Type 0 → Type 0
Metadata N = JsMap Text (Json N)

module _ {N : Type 0} where
  unfoldable pub field_of : Fields N → Text → Option (Json N)
  field_of end k = none
  field_of (field j v r) k = if text_eq j k then some v else field_of r k

  -- `(value as Record<string, unknown>)[key]` of an object; an array has no such key.
  unfoldable pub member : Json N → Text → Option (Json N)
  unfolding field_of
  member (obj f) k = field_of f k
  member null k = none
  member (bool b) k = none
  member (num n) k = none
  member (str s) k = none
  member (arr xs) k = none

  -- `typeof value === 'number' ? value : …`
  abbrev pub as_number : Option (Json N) → Option N
  as_number (some (num n)) = some n
  as_number (some null) = none
  as_number (some (bool b)) = none
  as_number (some (str s)) = none
  as_number (some (arr xs)) = none
  as_number (some (obj f)) = none
  as_number none = none
