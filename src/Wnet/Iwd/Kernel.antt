-- ===== src/Wnet/Iwd/Kernel.antt =====
-- internal/wnet/iwd/ip.go: what the kernel's files say, by their content; `none` is a file that
-- cannot be opened.
use wfm.Prelude.{
  ◌&&◌, List, [], ◌∷◌, ◌++◌, Option, none, some, Text, text, text_eq, ◌==◌, ◌!=◌, if◌then◌else◌,
}
use wfm.Prelude.Splitting.{lines, fields}
use wfm.Wnet.Iwd.Names.{decode_hex}
use wfm.Wnet.Iwd.Profile.{dotted}

abbrev pub dotted_le : Option Text → Text
dotted_le (some (a ∷ b ∷ c ∷ d ∷ [])) = dotted (d ∷ c ∷ b ∷ a ∷ [])
dotted_le _ = []

unfoldable pub parse_hex_ipv4_le : Text → Text
unfolding decode_hex
parse_hex_ipv4_le h = dotted_le (decode_hex h)

-- The gateway that the fields of a route tell, empty if they are passed over.
abbrev pub route_gateway : (iface : Text) → List Text → Text
route_gateway iface (name ∷ destination ∷ gateway ∷ more) =
    if name == iface && destination == text "00000000" then parse_hex_ipv4_le gateway else []
route_gateway iface _ = []

unfoldable pub first_gateway : (iface : Text) → List Text → Text
first_gateway iface [] = []
first_gateway iface (line ∷ rest) =
    let gw = route_gateway iface (fields line) in
    let later = first_gateway iface rest in if gw != [] then gw else later

abbrev pub behind_header : List Text → List Text
behind_header [] = []
behind_header (header ∷ rest) = rest

abbrev pub default_gateway : (routes : Option Text) → (iface : Text) → Text
default_gateway none iface = []
default_gateway (some routes) iface = first_gateway iface (behind_header (lines routes))

abbrev pub nameserver : List Text → List Text
nameserver (word ∷ server ∷ more) = if word == text "nameserver" then server ∷ [] else []
nameserver _ = []

unfoldable pub nameservers : List Text → List Text
nameservers [] = []
nameservers (line ∷ rest) = nameserver (fields line) ++ nameservers rest

abbrev pub dns_servers : (resolv_conf : Option Text) → List Text
dns_servers none = []
dns_servers (some content) = nameservers (lines content)
