-- ===== src/Wnet/Nmdbus/Variants.antt =====
-- internal/wnet/nmdbus/settings.go: the dictionaries of settings and their values. A map is a list of
-- its keys with their values, of which a key has one. The dictionaries inside a variant hold what the
-- code tells apart.
use wfm.Prelude.{
  ℕ, Bool, List, [], ◌∷◌, Option, none, some, Text, text_eq, nat_eq, ◌==◌, if◌then◌else◌,
}

pub data Basic : Type 0 where
  str : Text → Basic
  uint32 : ℕ → Basic
  other : Basic

-- `dbus.Variant`
pub data Variant : Type 0 where
  str : Text → Variant
  boolean : Bool → Variant
  bytes : Text → Variant
  uint32s : List ℕ → Variant
  byte_arrays : List Text → Variant
  strings : List Text → Variant
  dicts : List (List (Text × Basic)) → Variant
  other : Variant

abbrev pub Group : Type 0
Group = List (Text × Variant)

-- `nmSettings`
abbrev pub NmSettings : Type 0
NmSettings = List (Text × Group)

abbrev pub lookup : {A : Type 0} → Text → List (Text × A) → Option A
lookup key [] = none
lookup key ((k, v) ∷ rest) = if k == key then some v else lookup key rest

abbrev pub in_group : Option Group → (key : Text) → Option Variant
in_group none key = none
in_group (some g) key = lookup key g

unfoldable pub s_get : NmSettings → (group key : Text) → Option Variant
s_get s group key = in_group (lookup group s) key

abbrev pub as_string : Option Variant → Text
as_string (some (str x)) = x
as_string _ = []

abbrev pub as_bool : (def : Bool) → Option Variant → Bool
as_bool def (some (boolean b)) = b
as_bool def _ = def

abbrev pub as_bytes : Option Variant → Text
as_bytes (some (bytes x)) = x
as_bytes _ = []

unfoldable pub s_string : NmSettings → (group key : Text) → Text
unfolding s_get
s_string s group key = as_string (s_get s group key)

unfoldable pub s_bool : NmSettings → (group key : Text) → (def : Bool) → Bool
unfolding s_get
s_bool s group key def = as_bool def (s_get s group key)

unfoldable pub s_bytes : NmSettings → (group key : Text) → Text
unfolding s_get
s_bytes s group key = as_bytes (s_get s group key)
