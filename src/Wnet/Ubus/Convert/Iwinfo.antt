-- ===== src/Wnet/Ubus/Convert/Iwinfo.antt =====
-- internal/wnet/ubus/convert.go and ubus.go: the JSON that iwinfo answers.
use wfm.Prelude.{Bool, ◌&&◌, List, [], ◌∷◌, Option, some, Text, text, text_eq, if◌then◌else◌}
use wfm.Prelude.Int.{int_eq}
use wfm.Wnet.Ubus.Json.{
  Json, field, as_string, as_bool, as_int, as_uint32, as_object, as_list, ◌>>=◌,
}
use wfm.Wnet.Ubus.Convert.{is_associated, Encryption, ScanResult, IwinfoInfo}

-- The JSON of the structs. A mismatch in a field that wfm does not read is an error as well.
unfoldable pub as_encryption : Json → Option Encryption
as_encryption j = do
  ms ← as_object j
  enabled ← as_bool (field (text "enabled") ms)
  _ ← as_list as_int (field (text "wpa") ms)
  authentication ← as_list as_string (field (text "authentication") ms)
  _ ← as_bool (field (text "wep") ms)
  some (record { enabled = enabled; authentication = authentication })

unfoldable pub as_scan_result : Json → Option ScanResult
as_scan_result j = do
  ms ← as_object j
  ssid ← as_string (field (text "ssid") ms)
  bssid ← as_string (field (text "bssid") ms)
  _ ← as_int (field (text "channel") ms)
  mhz ← as_uint32 (field (text "mhz") ms)
  _ ← as_int (field (text "signal") ms)
  quality ← as_int (field (text "quality") ms)
  quality_max ← as_int (field (text "quality_max") ms)
  encryption ← as_encryption (field (text "encryption") ms)
  some (record {
    ssid = ssid;
    bssid = bssid;
    mhz = mhz;
    quality = quality;
    quality_max = quality_max;
    encryption = encryption;
  })

unfoldable pub as_iwinfo_info : Json → Option IwinfoInfo
as_iwinfo_info j = do
  ms ← as_object j
  ssid ← as_string (field (text "ssid") ms)
  bssid ← as_string (field (text "bssid") ms)
  mode ← as_string (field (text "mode") ms)
  _ ← as_int (field (text "channel") ms)
  _ ← as_uint32 (field (text "frequency") ms)
  _ ← as_int (field (text "signal") ms)
  quality ← as_int (field (text "quality") ms)
  quality_max ← as_int (field (text "quality_max") ms)
  hw_addr ← as_string (field (text "hwaddr") ms)
  _ ← as_encryption (field (text "encryption") ms)
  some (record {
    ssid = ssid;
    bssid = bssid;
    mode = mode;
    quality = quality;
    quality_max = quality_max;
    hw_addr = hw_addr;
  })

-- `peers.Results`: the MAC and whether it is authorized.
unfoldable pub as_peer : Json → Option (Text × Bool)
as_peer j = do
  ms ← as_object j
  mac ← as_string (field (text "mac") ms)
  authorized ← as_bool (field (text "authorized") ms)
  some (mac, authorized)

-- `out.BSSID` behind the loop over the peers.
unfoldable pub first_peer : List (Text × Bool) → Text
first_peer [] = []
first_peer ((mac, authorized) ∷ peers) =
    let later = first_peer peers in if authorized && is_associated mac then mac else later
