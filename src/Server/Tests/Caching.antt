-- ===== src/Server/Tests/Caching.antt =====
-- The theorems on the scan cache of internal/server at a file system in memory.
use wfm.Prelude.{
  ℕ, Bool, true, false, List, [], ◌∷◌, ◌+◌, map, Option, none, some, ◌≡◌, refl, ap, ap₂, sym, ◌∙◌,
  arith, Text, text, text_eq, nat_eq, ◌==◌, if◌then◌else◌, leb,
}
use wfm.Prelude.Int.{pos}
use wfm.Wnet.Types.{err_not_found, err_unsupported, err_other}
use wfm.Wnet.Backend.{Backend, return, fail}
use wfm.Server.Messages.{AccessPoint, InterfaceScan, key_management_sae}
use wfm.Server.Convert.{reply, pb_access_point}
use wfm.Server.ScanCache.{
  ScanCache, new_scan_cache, get, ReadFile, blob, not_exist, Storage, load, put,
}
use wfm.Server.ScanCache.Entries.{HasDistinctIds, get-put, load-served, IsStorage, load-put}
use wfm.Server.AccessPoints.{access_point_scan}
use wfm.Server.AccessPoints.Serving.{access_point_scan_twice}
use wfm.Server.Tests.{wlan, radio_ap, run}

abbrev seen : AccessPoint
seen = record {
  id = text "aa";
  ssid = text "home";
  bssid = text "aa";
  signal = pos 70;
  frequency = 5180;
  key_management = key_management_sae ∷ [];
}

-- A file system, whose state is the content of every path, and an encoding for at most one
-- interface, without access points.
abbrev Disk : Type 0
Disk = Text → ReadFile

abbrev decode : Text → Option (List InterfaceScan)
decode [] = some []
decode (at ∷ id) =
    some (record { interface_id = id; scanned_at = some at; access_points = [] } ∷ [])

abbrev encode_fields : Text → Option ℕ → List AccessPoint → Option Text
encode_fields id none aps = none
encode_fields id (some at) [] = some (at ∷ id)
encode_fields id (some at) (ap ∷ aps) = none

abbrev encode : List InterfaceScan → Option Text
encode [] = some []
encode (e ∷ []) = encode_fields e.interface_id e.scanned_at e.access_points
encode (e ∷ f ∷ rest) = none

abbrev disk : Storage Disk
disk = record {
  read_file = λ path w. (w path, w);
  write_file_atomic = λ path bytes w. (true, λ p. if p == path then blob bytes else w p);
  marshal = encode;
  unmarshal = decode;
}

decode-encode_fields :
    (id : Text) (at : Option ℕ) (aps : List AccessPoint) (bytes : Text)
    → encode_fields id at aps ≡ some bytes
    → decode bytes ≡ some (record { interface_id = id; scanned_at = at; access_points = aps } ∷ [])
decode-encode_fields id none aps bytes e = cc
decode-encode_fields id (some at) [] bytes e = ground arith
decode-encode_fields id (some at) (ap ∷ aps) bytes e = cc

decode-encode :
    (entries : List InterfaceScan) (bytes : Text)
    → encode entries ≡ some bytes
    → decode bytes ≡ some entries
decode-encode [] bytes e = ground arith
decode-encode (x ∷ []) bytes e =
    decode-encode_fields x.interface_id x.scanned_at x.access_points bytes e
decode-encode (x ∷ y ∷ rest) bytes e = cc

disk-IsStorage : IsStorage disk
disk-IsStorage = record {
  unmarshal-marshal = decode-encode;
  read-write = λ path bytes w w' e.
      let h : (λ p. if p == path then blob bytes else w p) ≡ w' = ground arith in
      ap₂ (λ (x : ReadFile) (y : Disk). let r : ReadFile × Disk = (x, y) in r)
        (sym (ap (λ (f : Disk). f path) h) ∙ ground arith) refl;
}

abbrev cache_path : Text
cache_path = text "scans"

abbrev empty_cache : ScanCache
empty_cache = new_scan_cache cache_path 60

abbrev no_files : Disk
no_files path = not_exist

abbrev after_put : Bool × ScanCache × Disk
after_put = put disk empty_cache (text "wlan0") 100 [] no_files

get-put_example :
    get (put disk empty_cache (text "wlan0") 100 (seen ∷ []) no_files).1 (text "wlan0") 160 ≡ (
      if text "wlan0" == text "wlan0"
      then if leb 160 (100 + 60) then some (seen ∷ []) else none
      else get empty_cache (text "wlan0") 160)
unfolding run
get-put_example =
    get-put disk empty_cache (text "wlan0") (text "wlan0") 100 160 (seen ∷ []) no_files

load-served_example :
    (c' : ScanCache) × (load disk empty_cache 130 after_put.2 ≡ (true, c', after_put.2))
    × HasDistinctIds c'.entries
    × (get c' (text "wlan0") 150
        ≡ get (record empty_cache { entries = after_put.1.entries }) (text "wlan0") 150)
unfolding run
load-served_example =
    load-served disk empty_cache 130 150 (100 ∷ text "wlan0") (text "wlan0") after_put.1.entries
      after_put.2 after_put.2 refl refl (tt, tt) (omega arith)

load-put_example :
    (c2 : ScanCache) × (load disk (new_scan_cache cache_path 60) 130 after_put.2
      ≡ (true, c2, after_put.2))
    × (get c2 (text "wlan0") 150 ≡ get after_put.1 (text "wlan0") 150)
unfolding run
load-put_example =
    load-put disk disk-IsStorage empty_cache after_put.1 (text "wlan0") (text "wlan0") 100 130 150
      [] no_files after_put.2 tt refl (omega arith)

-- The radio with the file system above as its world.
abbrev seeing : Backend Disk
seeing = record {
  interfaces = return [];
  interface = λ name. return wlan;
  set_power = λ name on. fail err_unsupported;
  scan = λ name. elim (name == text "wlan0") [
    | true ↦ return (radio_ap ∷ [])
    | false ↦ fail err_not_found
  ];
  profiles = return [];
  profile = λ id. fail err_not_found;
  add_profile = λ spec. fail err_unsupported;
  patch_profile = λ id patch. fail err_unsupported;
  delete_profile = λ id. fail err_not_found;
  activate = λ name profile_id bssid. fail err_other;
  deactivate = λ id. fail err_unsupported;
  connections = return [];
  connection = λ id. fail err_not_found;
  status = λ id. fail err_not_found;
  watch = λ id. fail err_not_found;
  close = return tt;
}

access_point_scan_twice_example :
    let items = map pb_access_point (radio_ap ∷ []) in
    (c' : ScanCache) × (w' : Disk) × (access_point_scan seeing disk
        (some empty_cache)
        (text "wlan0")
        90
        100
        no_files
      ≡ (reply items, some c', w'))
    × (access_point_scan seeing disk (some c') (text "wlan0") 150 151 no_files
        ≡ (reply items, some c', no_files))
unfolding run
access_point_scan_twice_example =
    access_point_scan_twice seeing disk empty_cache (text "wlan0") 90 100 150 151 no_files no_files
      no_files (radio_ap ∷ []) (λ e. cc) refl refl (omega arith)
