-- ===== src/Wnet/Iwd/Tests.antt =====
-- Runs of the iwd backend's definitions, and instances of what is proved of them.
use wfm.Prelude.{
  sym, ◌∙◌, suc, ℕ, List, Option, inl, Bool, true, false, [], ◌∷◌, ◌++◌, none, some, ◌≡◌, refl,
  arith, Text, text, text_eq, nat_eq, ◌==◌, if◌then◌else◌, inr, trim_left, trim_right, trim_space,
  is_space, to_lower, lower_byte, has_prefix, has_suffix, join,
}
use wfm.Prelude.Int.{pos, negsuc}
use wfm.Prelude.Splitting.{split_if, split_on, drop_cr, drop_last_empty, lines, cut, fields}
use wfm.Wnet.Types.{
  Status, ConnState, state_idle, state_associating, state_failed, conn_state_eq, sec_psk,
  security_kind_eq, ip_method_eq, ip_manual, ip_auto, IpConfig, Profile, ProfileSpec,
}
use wfm.Wnet.Iwd.Profile.{
  NetLib, cidr_to_addr_netmask, join_addr_netmask, decimal, render_profile, parse_profile,
  read_ipv4, read_ipv6, parse_bool, manual_address,
}
use wfm.Wnet.Iwd.Profile.Ini.{parse_ini, read_lines, read_trimmed, lookup_text}
use wfm.Wnet.Iwd.Profile.Written.{IsOptional, stored}
use wfm.Wnet.Iwd.Profile.Sections.{Given4, prefixed, IsPlain4, section4}
use wfm.Wnet.Iwd.Profile.RoundTrip.{parse_profile-render_profile}
use wfm.Wnet.Iwd.Convert.{
  map_state, dbm_to_quality, signal_to_quality, sec_kind_to_type, type_to_sec_kind,
}
use wfm.Wnet.Iwd.Names.{
  all_simple, simple_ssid, encode_hex, hex_value, decode_hex, encode_ssid, decode_ssid,
  profile_filename, cut_last, parse_profile_filename,
}
use wfm.Wnet.Backend.{ok}
use wfm.Wnet.Iwd.Watching.{Station, build_status, emit_all}
use wfm.Wnet.Iwd.Watching.Following.{Follows, EndsFailed, all_taken, emit_all_dropped}
use wfm.Wnet.Iwd.Kernel.{
  parse_hex_ipv4_le, first_gateway, default_gateway, nameservers, dns_servers,
}
use wfm.Wnet.Iwd.Store.{
  Files, entries, write_profile, find_entry_of, find_profile_file, iwd_profile, iwd_add_profile,
}
use wfm.Wnet.Iwd.Store.Adding.{IsFiles, IsApart, IsCanonical, iwd_profile-iwd_add_profile}
use wfm.Wnet.Iwd.Names.RoundTrip.{parse_profile_filename-profile_filename}

runs : Unit {0}
unfolding build_status emit_all map_state conn_state_eq parse_hex_ipv4_le first_gateway nameservers
    trim_left trim_right trim_space is_space to_lower lower_byte has_prefix has_suffix join split_if
    split_on drop_cr drop_last_empty lines cut fields ip_method_eq security_kind_eq
    cidr_to_addr_netmask join_addr_netmask decimal render_profile parse_profile parse_ini read_lines
    read_trimmed read_ipv4 read_ipv6 parse_bool all_simple simple_ssid encode_hex hex_value
    decode_hex encode_ssid decode_ssid profile_filename cut_last parse_profile_filename
    write_profile find_entry_of find_profile_file iwd_profile iwd_add_profile text_eq nat_eq
    dbm_to_quality signal_to_quality type_to_sec_kind
runs = tt

quality_tests :
    (signal_to_quality (negsuc 6999) ≡ pos 60)
    × (signal_to_quality (negsuc 10998) ≡ pos 0)
    × (signal_to_quality (negsuc 4000) ≡ pos 100)
unfolding runs
quality_tests = (refl, refl, refl)

filename_tests :
    (profile_filename (text "home net") (text "psk") ≡ text "home net.psk")
    × (profile_filename (text "a.b") (text "open") ≡ text "=612e62.open")
    × (parse_profile_filename (text "=6.psk") ≡ none)
    × (parse_profile_filename (text "a.b.8021x") ≡ some (text "a.b", text "8021x"))
    × (parse_profile_filename (text "known.conf") ≡ none)
unfolding runs
filename_tests = (refl, refl, refl, refl, refl)

parse_profile_filename-profile_filename_example :
    (parse_profile_filename (profile_filename (text "caf.") (sec_kind_to_type sec_psk))
      ≡ some (text "caf.", text "psk"))
    × (type_to_sec_kind (sec_kind_to_type sec_psk) ≡ sec_psk)
parse_profile_filename-profile_filename_example =
    parse_profile_filename-profile_filename (text "caf.") sec_psk (ground arith)

abbrev one_net : NetLib
one_net = record {
  parse_cidr = λ s.
      if s == text "10.0.0.2/24" then some (text "10.0.0.2", 255 ∷ 255 ∷ 255 ∷ 0 ∷ []) else none;
  is_ip = λ s. false;
  parse_ip4 = λ s. if s == text "255.255.255.0" then some (255 ∷ 255 ∷ 255 ∷ 0 ∷ []) else none;
  mask_ones = λ mask. 24;
}

abbrev lan : IpConfig
lan = record {
  method = ip_manual;
  addresses = text "10.0.0.2/24" ∷ [];
  gateway = text "10.0.0.1";
  dns = text "1.1.1.1" ∷ text "8.8.8.8" ∷ [];
  dns_search = text "lan" ∷ [];
}

abbrev file : Text
file = render_profile one_net sec_psk (text "a secret") true false (some lan) none

abbrev joined_id : Text → Text → Text
joined_id ssid type = ssid ++ type

abbrev home : Profile
home = record {
  id = text "homepsk";
  name = text "home";
  ssid = text "home";
  hidden = false;
  autoconnect = true;
  security = record { kind = sec_psk; passphrase = [] };
  ipv4 = lan;
  ipv6 = record { method = ip_auto; addresses = []; gateway = []; dns = []; dns_search = [] };
}

secret-IsOptional : IsOptional (stored sec_psk (text "a secret"))
unfolding runs
secret-IsOptional = inr (ground arith, refl, refl, ground arith)

lan-IsPlain4 : IsPlain4 (section4 one_net (manual_address (some lan)))
unfolding runs
lan-IsPlain4 = (
  (
    inr (ground arith, refl, refl, ground arith),
    ((ground arith, ground arith), ((ground arith, ground arith), tt)),
    (ground arith, refl, refl, ground arith),
  ),
  (ground arith, refl, refl, ground arith),
  inr (ground arith, refl, refl, ground arith),
)

lan-Given4 : Given4 one_net (manual_address (some lan)) lan
unfolding runs
lan-Given4 = prefixed {ip = text "10.0.0.2"} {a = 255} {b = 255} {c = 255} {d = 0} refl refl refl

parse_profile-render_profile_example :
    (parse_profile one_net joined_id (text "home") (text "psk") file ≡ home)
    × (lookup_text (parse_ini file) (text "Security") (text "Passphrase") ≡ text "a secret")
unfolding runs
parse_profile-render_profile_example =
    parse_profile-render_profile one_net joined_id (text "home") (text "psk") sec_psk
      (text "a secret") true false (some lan) none lan secret-IsOptional lan-IsPlain4 tt lan-Given4

-- Files in memory.
abbrev Disk : Type 0
Disk = List (Text × Text)

abbrev names : Disk → List (Text × Bool)
names [] = []
names ((name, content) ∷ disk) = (name, false) ∷ names disk

abbrev content_of : Text → Disk → Option Text
content_of name [] = none
content_of name ((n, content) ∷ disk) = if n == name then some content else content_of name disk

abbrev disk_files : Files Disk
disk_files = record {
  read_dir = λ disk. entries (names disk);
  read_file = content_of;
  make_store = λ disk. (true, disk);
  write_file = λ name content disk. (true, (name, content) ∷ disk);
  remove = λ name disk. (false, disk);
}

wrote :
    (name content : Text) (disk after : Disk)
    → disk_files.write_file name content disk ≡ (true, after)
    → after ≡ (name, content) ∷ disk
wrote name content disk after e = ground (arith, e)

disk_files-IsFiles : IsFiles disk_files
disk_files-IsFiles = record {
  read_back = λ name content disk after e. rw (wrote name content disk after e) (ground arith);
  is_listed = λ name content disk after e. rw (wrote name content disk after e) (inl refl);
}

-- Identifiers that not all networks have for themselves.
abbrev short_id : Text → Text → Text
short_id [] type = []
short_id (c ∷ ssid) type = c ∷ type

abbrev spec : ProfileSpec
spec = record {
  name = [];
  ssid = text "home";
  hidden = false;
  autoconnect = true;
  security = record { kind = sec_psk; passphrase = text "a secret" };
  ipv4 = some lan;
  ipv6 = none;
}

abbrev coded_home : Profile
coded_home = record home { id = short_id (text "home") (text "psk") }

-- The store before, and after a profile is added.
abbrev beside : Disk
beside = (text "work.psk", file) ∷ []

abbrev disk : Disk
disk = (text "home.psk", file) ∷ beside

added : iwd_add_profile one_net short_id disk_files spec beside ≡ (ok coded_home, disk)
unfolding runs
added = refl

home_filename : profile_filename (text "home") (text "psk") ≡ text "home.psk"
unfolding runs
home_filename = refl

home_parsed : parse_profile_filename (text "home.psk") ≡ some (text "home", text "psk")
unfolding runs
home_parsed = refl

home-IsCanonical : IsCanonical (text "home.psk", false)
home-IsCanonical ssid type e = ground (arith, e, home_parsed, home_filename)

work_filename : profile_filename (text "work") (text "psk") ≡ text "work.psk"
unfolding runs
work_filename = refl

work_parsed : parse_profile_filename (text "work.psk") ≡ some (text "work", text "psk")
unfolding runs
work_parsed = refl

work-IsCanonical : IsCanonical (text "work.psk", false)
work-IsCanonical ssid type e = ground (arith, e, work_parsed, work_filename)

home-IsApart : IsApart short_id (text "home") (text "psk") (text "home.psk", false)
home-IsApart ssid type e same = ground (arith, e, home_parsed)

work-IsApart : IsApart short_id (text "home") (text "psk") (text "work.psk", false)
work-IsApart ssid type e same =
    let named : some (ssid, type) ≡ some (text "work", text "psk") = sym e ∙ work_parsed in
    absurd (ground (arith, named, same))

iwd_profile-iwd_add_profile_example :
    iwd_profile one_net short_id disk_files (short_id (text "home") (text "psk")) disk
    ≡ (ok coded_home, disk)
iwd_profile-iwd_add_profile_example =
    iwd_profile-iwd_add_profile one_net short_id disk_files disk_files-IsFiles spec beside disk
      coded_home (ground arith) (home-IsCanonical, (work-IsCanonical, tt))
      (home-IsApart, (work-IsApart, tt)) added

kernel_tests :
    (default_gateway
        (some (
          text "Iface Destination Gateway" ++ b'\n' ∷ text "wlan0 00000000 0100A8C0" ++ b'\n' ∷ []))
        (text "wlan0")
      ≡ text "192.168.0.1")
    × (parse_hex_ipv4_le (text "0100A8") ≡ [])
    × (dns_servers (some (text "search lan" ++ b'\n' ∷ text "nameserver 1.1.1.1"))
        ≡ text "1.1.1.1" ∷ [])
unfolding runs
kernel_tests = (refl, refl, refl)

abbrev quiet : Station ℕ
quiet = record {
  diagnostics = λ w. (some (text "aa:01", some (negsuc 69)), suc w);
  addresses = λ w. text "10.0.0.2/24" ∷ [];
  routes = λ w. none;
  resolv_conf = λ w. none;
}

abbrev signals : List Text
signals =
    text "disconnected"
    ∷ text "connecting"
    ∷ text "connecting"
    ∷ text "disconnected"
    ∷ text "connected"
    ∷ []

abbrev states : List Status → List ConnState
states [] = []
states (s ∷ rest) = s.state ∷ states rest

emitted :
    states (emit_all quiet (text "wlan0") (all_taken signals) false none 0).0
    ≡ state_idle ∷ state_associating ∷ state_failed ∷ []
unfolding runs
emitted = refl

abandoned :
    (emit_all quiet
      (text "wlan0")
      ((text "connecting", false) ∷ (text "connecting", true) ∷ [])
      false
      none
      0).0
    ≡ []
unfolding runs
abandoned = refl

abbrev dropped_out : List Status
dropped_out =
    (emit_all quiet (text "wlan0")
      (all_taken (text "connecting" ∷ text "disconnected" ∷ text "connected" ∷ [])) false none 0).0

emit_all_dropped_example : EndsFailed dropped_out × Follows none false dropped_out
unfolding runs
emit_all_dropped_example =
    emit_all_dropped quiet (text "wlan0") (text "disconnected") (text "connected" ∷ []) refl
      (text "connecting" ∷ []) 0 (inl refl) (λ e. absurd (ground (arith, e)), tt)
