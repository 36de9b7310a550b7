-- ===== src/Server/AccessPoints.antt =====
-- internal/server/access_point.go: the handler `Scan`. The server's cache is a field of its own
-- beside the world; `now` gives the two readings of the clock.
pub mod Serving
use wfm.Prelude.{ℕ, Bool, List, [], map, Option, none, some, Text, text_eq, ◌==◌, if◌then◌else◌}
use wfm.Wnet.Types.{Ap}
use wfm.Wnet.Backend.{Result, ok, err, Backend}
use wfm.Server.Messages.{AccessPoint}
use wfm.Server.Convert.{invalid_argument, Reply, reply, status, err_to_status, pb_access_point}
use wfm.Server.ScanCache.{ScanCache, get, Storage, put}

module _ {W : Type 0} (b : Backend W) (st : Storage W) where
  -- `if s.cache != nil { _ = s.cache.Put(…) }`
  abbrev pub remember : Option ScanCache → Text → ℕ → List AccessPoint → W → Option ScanCache × W
  remember none ifname at items w = (none, w)
  remember (some c) ifname at items w =
      let (done, c', w') = put st c ifname at items w in (some c', w')

  abbrev pub scanned :
      Option ScanCache
      → Text
      → ℕ
      → Result (List Ap) × W
      → Reply (List AccessPoint) × Option ScanCache × W
  scanned cache ifname at (err e, w) = (status (err_to_status e), cache, w)
  scanned cache ifname at (ok aps, w) =
      let items = map pb_access_point aps in
      let (cache', w') = remember cache ifname at items w in (reply items, cache', w')

  abbrev pub cached : Option ScanCache → Text → ℕ → Option (List AccessPoint)
  cached none ifname now = none
  cached (some c) ifname now = get c ifname now

  -- `now` is read before the lookup, `at` after the backend's scan.
  unfoldable pub access_point_scan :
      Option ScanCache → Text → (now at : ℕ) → W → Reply (List AccessPoint) × Option ScanCache × W
  access_point_scan cache ifname now at w =
      if ifname == [] then (status invalid_argument, cache, w) else elim (cached cache ifname now) [
        | some items ↦ (reply items, cache, w)
        | none ↦ scanned cache ifname at (b.scan ifname w)
      ]
