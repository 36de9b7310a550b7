-- ===== src/Wnet/Ubus/Json.antt =====
-- JSON values and how Go's `encoding/json` decodes them into the types that internal/wnet/ubus
-- decodes into. A decoder answers `none` on a value of another type; a null, like a field that is
-- not there, leaves the zero value. Of the members of one object no two have names that are equal
-- up to letter case, by which Go looks up fields.
use wfm.Prelude.{
  ℕ, Bool, false, List, [], ◌∷◌, Option, none, some, Text, equal_fold, if◌then◌else◌, leb, ◌^◌,
}
use wfm.Prelude.Int.{ℤ, pos, fits_int64}

mutual
  pub data Json : Type 0 where
    null : Json
    boolean : Bool → Json
    number : ℤ → Json
    -- a number that is not an integer
    fraction : Json
    string : Text → Json
    array : Items → Json
    object : Members → Json

  pub data Items : Type 0 where
    nil : Items
    cons : Json → Items → Items

  pub data Members : Type 0 where
    end : Members
    member : Text → Json → Members → Members

abbrev pub items : Items → List Json
items nil = []
items (cons j js) = j ∷ items js

abbrev pub members : Members → List (Text × Json)
members end = []
members (member name j ms) = (name, j) ∷ members ms

-- `map[string]any`, `[]any` and the structs of requests, encoded.
abbrev pub to_members : List (Text × Json) → Members
to_members [] = end
to_members ((name, j) ∷ ms) = member name j (to_members ms)

abbrev pub to_object : List (Text × Json) → Json
to_object ms = object (to_members ms)

abbrev pub to_items : List Json → Items
to_items [] = nil
to_items (j ∷ js) = cons j (to_items js)

-- The value of a field.
unfoldable pub field : Text → List (Text × Json) → Json
field name [] = null
field name ((k, j) ∷ ms) = let later = field name ms in if equal_fold k name then j else later

abbrev pub as_string : Json → Option Text
as_string null = some []
as_string (string s) = some s
as_string _ = none

abbrev pub as_bool : Json → Option Bool
as_bool null = some false
as_bool (boolean b) = some b
as_bool _ = none

abbrev pub as_int : Json → Option ℤ
as_int null = some (pos 0)
as_int (number n) = if fits_int64 n then some n else none
as_int _ = none

abbrev pub as_uint32 : Json → Option ℕ
as_uint32 null = some 0
as_uint32 (number (pos n)) = if leb (2 ^ 32) n then none else some n
as_uint32 _ = none

-- The members of a struct or a map.
abbrev pub as_object : Json → Option (List (Text × Json))
as_object null = some []
as_object (object ms) = some (members ms)
as_object _ = none

infixl 5 ◌>>=◌
abbrev pub ◌>>=◌ : {A B : Type 0} → Option A → (A → Option B) → Option B
none >>= f = none
some a >>= f = f a

module _ {A : Type 0} (decode : Json → Option A) where
  unfoldable pub all_of : List Json → Option (List A)
  all_of [] = some []
  all_of (j ∷ js) = do a ← decode j; rest ← all_of js; some (a ∷ rest)

  abbrev pub as_list : Json → Option (List A)
  as_list null = some []
  as_list (array js) = all_of (items js)
  as_list _ = none

-- What is decoded of a value whose error is ignored: a mismatch leaves the zero value.
abbrev pub string_or_empty : Json → Text
string_or_empty (string s) = s
string_or_empty _ = []

abbrev pub items_or_none : Json → List Json
items_or_none (array js) = items js
items_or_none _ = []

abbrev pub members_or_none : Json → List (Text × Json)
members_or_none (object ms) = members ms
members_or_none _ = []
