-- ===== src/Wnet/Iwd/Profile/Ini.antt =====
-- internal/wnet/iwd/profile.go: `parseINI`.
use wfm.Prelude.{
  Bool, ◌&&◌, ◌||◌, List, [], ◌∷◌, Option, none, some, Text, text, text_eq, nat_eq, ◌==◌, ◌!=◌, any,
  if◌then◌else◌, trim_space, has_prefix, has_suffix,
}
use wfm.Prelude.Splitting.{lines, cut}

-- The map of maps: the sections that were opened, and the values that were set, the last first.
pub record IniMap : Type 0 where
  pub sections : List Text
  pub entries : List (Text × Text × Text)

-- The map with the variable `cur`.
pub record Reading : Type 0 where
  pub cur : Text
  pub ini : IniMap

abbrev pub add_section : Text → Reading → Reading
add_section name r = record { cur = name; ini = record r.ini { sections = name ∷ r.ini.sections } }

abbrev pub add_entry : Text → Text → Reading → Reading
add_entry k v r = record r {
  ini = record r.ini { entries = (r.cur, trim_space k, trim_space v) ∷ r.ini.entries };
}

abbrev pub read_entry : Option (Text × Text) → Reading → Reading
read_entry none r = r
read_entry (some (k, v)) r = if r.cur != [] then add_entry k v r else r

-- A text without its last byte.
abbrev pub without_last : Text → Text
without_last [] = []
without_last (c ∷ []) = []
without_last (c ∷ d ∷ s) = c ∷ without_last (d ∷ s)

-- `line[1:len(line)-1]`
abbrev pub inner : Text → Text
inner [] = []
inner (c ∷ s) = without_last s

-- A trimmed line.
unfoldable pub read_trimmed : Text → Reading → Reading
read_trimmed line r =
    if line == [] || has_prefix line (text "#") || has_prefix line (text ";")
    then r
    else if has_prefix line (text "[") && has_suffix line (text "]")
    then add_section (inner line) r
    else read_entry (cut b'=' line) r

unfoldable pub read_lines : List Text → Reading → Reading
read_lines [] r = r
read_lines (line ∷ rest) r = read_lines rest (read_trimmed (trim_space line) r)

unfoldable pub parse_ini : Text → IniMap
parse_ini content =
    (read_lines (lines content)
      (record { cur = []; ini = record { sections = []; entries = [] } })).ini

abbrev pub has_section : IniMap → Text → Bool
has_section i name = any (λ s. s == name) i.sections

-- `sec[section][key]` with its `ok`.
abbrev pub find_entry : List (Text × Text × Text) → Text → Text → Option Text
find_entry [] section key = none
find_entry ((s, k, v) ∷ rest) section key =
    if s == section && k == key then some v else find_entry rest section key

abbrev pub lookup : IniMap → Text → Text → Option Text
lookup i section key = find_entry i.entries section key

abbrev pub or_empty : Option Text → Text
or_empty none = []
or_empty (some v) = v

-- `sec[section][key]`
abbrev pub lookup_text : IniMap → Text → Text → Text
lookup_text i section key = or_empty (lookup i section key)
