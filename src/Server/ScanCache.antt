-- ===== src/Server/ScanCache.antt =====
-- internal/server/scan_cache.go: the cached scans, at most one for each interface. Times are whole
-- nanoseconds, the time to live is not negative. The file and the encoding of its contents are
-- parameters.
pub mod Entries
use wfm.Prelude.{
  ℕ, ◌+◌, Bool, true, false, List, [], ◌∷◌, ◌++◌, Option, none, some, Text, text_eq, ◌==◌, leb,
  if◌then◌else◌, keep, find,
}
use wfm.Server.Messages.{AccessPoint, InterfaceScan}

-- The state behind the mutex, with the settings.
pub record ScanCache : Type 0 where
  pub path : Text
  pub ttl : ℕ
  pub entries : List InterfaceScan

unfoldable pub new_scan_cache : Text → ℕ → ScanCache
new_scan_cache path ttl = record { path = path; ttl = ttl; entries = [] }

-- `now.Sub(at) <= ttl`
abbrev pub within_ttl : ℕ → ℕ → Option ℕ → Bool
within_ttl ttl now none = false
within_ttl ttl now (some at) = leb now (at + ttl)

unfoldable pub fresh : ScanCache → InterfaceScan → ℕ → Bool
fresh c e now = within_ttl c.ttl now e.scanned_at

unfoldable pub find_scan : List InterfaceScan → Text → Option InterfaceScan
find_scan entries if_id = find (λ e. e.interface_id == if_id) entries

-- The loop of `putScan`, with the append behind it.
unfoldable pub replace_or_append : InterfaceScan → List InterfaceScan → List InterfaceScan
replace_or_append e [] = e ∷ []
replace_or_append e (x ∷ entries) =
    if x.interface_id == e.interface_id then e ∷ entries else x ∷ replace_or_append e entries

unfoldable pub put_scan : List InterfaceScan → Text → ℕ → List AccessPoint → List InterfaceScan
put_scan entries if_id at aps =
    replace_or_append (record { interface_id = if_id; scanned_at = some at; access_points = aps })
      entries

abbrev pub served : ScanCache → ℕ → Option InterfaceScan → Option (List AccessPoint)
served c now none = none
served c now (some e) = if fresh c e now then some e.access_points else none

-- The method `Get`; `none` is the result `nil, false`.
unfoldable pub get : ScanCache → Text → ℕ → Option (List AccessPoint)
get c if_id now = served c now (find_scan c.entries if_id)

-- What reading the cache file gives: its bytes, or that there is none, or another error.
pub data ReadFile : Type 0 where
  blob : Text → ReadFile
  not_exist failed : ReadFile

-- The file system and `google.golang.org/protobuf`.
pub record Storage (W : Type 0) : Type 0 where
  pub read_file : Text → W → ReadFile × W
  pub write_file_atomic : Text → Text → W → Bool × W
  pub marshal : List InterfaceScan → Option Text
  pub unmarshal : Text → Option (List InterfaceScan)

module _ {W : Type 0} (st : Storage W) where
  abbrev pub loaded : ScanCache → ℕ → ReadFile × W → Bool × ScanCache × W
  loaded c now (not_exist, w) = (true, c, w)
  loaded c now (failed, w) = (false, c, w)
  loaded c now (blob bytes, w) = elim (st.unmarshal bytes) [
    | none ↦ (false, c, w)
    | some entries ↦ (true, record c { entries = keep (λ e. fresh c e now) entries }, w)
  ]

  -- The method `Load`; `false` is an error.
  unfoldable pub load : ScanCache → ℕ → W → Bool × ScanCache × W
  load c now w = loaded c now (st.read_file c.path w)

  -- The method `Put`; `false` is an error.
  unfoldable pub put : ScanCache → Text → ℕ → List AccessPoint → W → Bool × ScanCache × W
  put c if_id at aps w =
      let c' : ScanCache = record c { entries = put_scan c.entries if_id at aps } in
      elim (st.marshal c'.entries) [
        | none ↦ (false, c', w)
        | some bytes ↦ let (done, w') = st.write_file_atomic c.path bytes w in (done, c', w')
      ]
