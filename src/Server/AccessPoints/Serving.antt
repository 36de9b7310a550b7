-- ===== src/Server/AccessPoints/Serving.antt =====
-- When `Scan` of internal/server/access_point.go asks the radio, and when the cache answers.
use wfm.Prelude.{
  ℕ, ◌+◌, ◌≤◌, List, [], map, Option, none, some, ◌≡◌, ◌≢◌, ◌∙◌, arith, Text, text_eq,
}
use wfm.Wnet.Types.{Ap, Error}
use wfm.Wnet.Backend.{ok, err, Backend}
use wfm.Server.Messages.{AccessPoint}
use wfm.Server.Convert.{reply, status, err_to_status, pb_access_point}
use wfm.Server.ScanCache.{ScanCache, get, Storage, put}
use wfm.Server.ScanCache.Entries.{get-put}
use wfm.Server.AccessPoints.{access_point_scan, scanned, cached}

module _ {W : Type 0} (b : Backend W) (st : Storage W) where
  scan_hit :
      (c : ScanCache) (ifname : Text) (now at : ℕ) (w : W) (items : List AccessPoint)
      → ifname ≢ []
      → get c ifname now ≡ some items
      → access_point_scan b st (some c) ifname now at w ≡ (reply items, some c, w)
  unfolding access_point_scan
  scan_hit c ifname now at w items n e = ground arith

  scan_miss :
      (c : ScanCache) (ifname : Text) (now at : ℕ) (w : W)
      → ifname ≢ []
      → get c ifname now ≡ none
      → access_point_scan b st (some c) ifname now at w
        ≡ scanned b st (some c) ifname at (b.scan ifname w)
  unfolding access_point_scan
  scan_miss c ifname now at w n e = ground arith

  -- A scan that the backend answers is answered from the cache until it expires: within the time
  -- to live, a request for the same interface gets the same access points, the world is left as it
  -- is, so the radio is not used, and the cache is left as it is.
  pub access_point_scan_twice :
      (c : ScanCache) (ifname : Text) (now at now2 at2 : ℕ) (w w1 w2 : W) (aps : List Ap)
      → ifname ≢ []
      → get c ifname now ≡ none
      → b.scan ifname w ≡ (ok aps, w1)
      → now2 ≤ at + c.ttl
      → let items = map pb_access_point aps in
        (c' : ScanCache) × (w' : W) × (access_point_scan b st (some c) ifname now at w
          ≡ (reply items, some c', w'))
        × (access_point_scan b st (some c') ifname now2 at2 w2 ≡ (reply items, some c', w2))
  access_point_scan_twice c ifname now at now2 at2 w w1 w2 aps n miss e h =
      let items = map pb_access_point aps in
      let (done, c', w') = put st c ifname at items w1 in
      (
        c',
        w',
        scan_miss c ifname now at w n miss ∙ rw e,
        scan_hit (put st c ifname at items w1).1 ifname now2 at2 w2 items n
            (get-put st c ifname ifname at now2 items w1 ∙ ground arith),
      )

  -- An interface that the cache has no fresh scan of is scanned by the backend, and so is every
  -- interface on a server without a cache; an error of the backend is passed on as a status and
  -- leaves the cache as it is.
  pub access_point_scan_failed :
      (cache : Option ScanCache) (ifname : Text) (now at : ℕ) (w w1 : W) (e : Error)
      → ifname ≢ []
      → cached b st cache ifname now ≡ none
      → b.scan ifname w ≡ (err e, w1)
      → access_point_scan b st cache ifname now at w ≡ (status (err_to_status e), cache, w1)
  unfolding access_point_scan
  access_point_scan_failed cache ifname now at w w1 e n miss failed = ground arith
