-- ===== src/Wnet/Local.antt =====
-- internal/wnet/localdev.go: the PCI address of a local interface. `os.Readlink` is a parameter.
use wfm.Prelude.{
  [], ◌∷◌, ◌++◌, Option, none, some, Text, text, text_eq, nat_eq, to_lower, ◌==◌, if◌then◌else◌,
}

abbrev sys_class_net : Text
sys_class_net = text "/sys/class/net"

unfoldable pub trim_slashes : Text → Text
trim_slashes [] = []
trim_slashes (c ∷ s) = elim (trim_slashes s) [
  | [] ↦ if c == b'/' then [] else c ∷ []
  | d ∷ r ↦ c ∷ d ∷ r
]

-- The part behind the last slash.
unfoldable pub last_part : Text → Text → Text
last_part acc [] = acc
last_part acc (c ∷ s) = last_part (if c == b'/' then [] else acc ++ c ∷ []) s

-- `filepath.Base`
unfoldable pub base : Text → Text
unfolding trim_slashes last_part
base [] = text "."
base (c ∷ s) = elim (trim_slashes (c ∷ s)) [ [] ↦ text "/" | d ∷ r ↦ last_part [] (d ∷ r) ]

-- `LocalPCI`; `filepath.Join` of these parts, of which the name of an interface holds no slash.
unfoldable pub local_pci : (readlink : Text → Option Text) → Text → Text
local_pci readlink name =
    if name == [] then [] else elim (readlink (sys_class_net ++ b'/' ∷ (name ++ text "/device"))) [
      | none ↦ []
      | some target ↦ to_lower (base target)
    ]
