-- ===== src/Wnet/Nmcli/Scanning.antt =====
-- internal/wnet/nmcli/nm.go: scanning; backend.go: the access points of the domain.
pub mod Attempts
use wfm.Prelude.{
  ℕ, zero, suc, ◌+◌, Bool, true, false, ◌&&◌, ◌||◌, not, List, [], ◌∷◌, ◌++◌, map, Option, none,
  some, Text, text, text_eq, nat_eq, ◌==◌, ◌!=◌, ltb, if◌then◌else◌, any, length, trim_space,
  to_upper, contains, find, Option-cases,
}
use wfm.Prelude.Int.{ℤ, to_uint32}
use wfm.Prelude.Splitting.{lines, trim_suffix, atoi_value}
use wfm.Wnet.Types.{
  Error, err_other, KeyMgmt, key_none, key_wpa_psk, key_sae, key_wpa_eap, key_owe, key_mgmt_eq, Ap,
}
use wfm.Wnet.Backend.{Result, ok, err, Action, ◌>>=◌, return}
use wfm.Wnet.Nmcli.Terse.{split_terse}
use wfm.Wnet.Nmcli.Host.{Host, run_nmcli}

-- The struct `AP` of nm.go.
pub record ListedAp : Type 0 where
  pub in_use : Bool
  pub ssid : Text
  pub bssid : Text
  pub chan : ℤ
  pub freq_mhz : ℕ
  pub signal : ℤ
  pub security : Text

-- `atoi`
abbrev pub atoi : Text → ℤ
atoi s = atoi_value (trim_space s)

-- One round of the loop of `parseAPList`, on the fields of the line.
abbrev pub listed_ap : List Text → List ListedAp
listed_ap (in_use ∷ ssid ∷ bssid ∷ chan ∷ freq ∷ signal ∷ security ∷ more) =
    record {
      in_use = in_use == text "*";
      ssid = ssid;
      bssid = bssid;
      chan = atoi chan;
      freq_mhz = to_uint32 (atoi (trim_suffix (trim_space freq) (text " MHz")));
      signal = atoi signal;
      security = trim_space security;
    }
    ∷ []
listed_ap _ = []

unfoldable pub listed_aps : List Text → List ListedAp
listed_aps [] = []
listed_aps (line ∷ rest) = listed_ap (split_terse line) ++ listed_aps rest

unfoldable pub parse_ap_list : Text → List ListedAp
parse_ap_list out = listed_aps (lines out)

unfoldable pub count_scannable : List ListedAp → ℕ
count_scannable [] = 0
count_scannable (ap ∷ aps) =
    if not ap.in_use then suc (count_scannable aps) else count_scannable aps

abbrev pub scan_attempts : ℕ
scan_attempts = 4

abbrev pub ap_fields : Text
ap_fields = text "IN-USE,SSID,BSSID,CHAN,FREQ,SIGNAL,SECURITY"

-- The last error of the loop, if any attempt failed.
abbrev pub finished : List ListedAp → Option Error → Result (List ListedAp)
finished [] none = ok []
finished [] (some e) = err e
finished (ap ∷ aps) last_err = ok (ap ∷ aps)

-- `if len(aps) > len(best) { best = aps }`
abbrev pub better : List ListedAp → List ListedAp → List ListedAp
better aps best = if ltb (length best) (length aps) then aps else best

module _ {W : Type 0} (h : Host W) where
  unfoldable pub list_aps : Text → Action W (List ListedAp)
  list_aps ifname = do
    out ← run_nmcli h (
        text "-t"
        ∷ text "-f"
        ∷ ap_fields
        ∷ text "device"
        ∷ text "wifi"
        ∷ text "list"
        ∷ text "ifname"
        ∷ ifname
        ∷ text "--rescan"
        ∷ text "no"
        ∷ [])
    return (parse_ap_list out)

  abbrev pub rescan : Text → Action W Text
  rescan ifname =
      run_nmcli h (text "device" ∷ text "wifi" ∷ text "rescan" ∷ text "ifname" ∷ ifname ∷ [])

  -- An attempt behind its wait, with the listing read after it; `next` is the loop behind it.
  abbrev pub scan_round :
      (next : List ListedAp → Option Error → Action W (List ListedAp))
      → (best : List ListedAp) → (last_err : Option Error) → (waited : Bool) → W
      → Result (List ListedAp) × W
      → Result (List ListedAp) × W
  scan_round next best last_err false w2 listed = (err err_other, w2)
  scan_round next best last_err true w2 (err e, w3) = next best (some e) w3
  scan_round next best last_err true w2 (ok aps, w3) =
      let rest = next (better aps best) last_err w3 in
      if ltb 0 (count_scannable aps) then (finished (better aps best) last_err, w3) else rest

  -- The loop of `Scan` over the attempts left. The slice `best` is nil exactly when it is empty,
  -- since it is only replaced by a longer one.
  unfoldable pub scan_loop :
      Text → ℕ → (best : List ListedAp) → (last_err : Option Error) → Action W (List ListedAp)
  scan_loop ifname zero best last_err w = (finished best last_err, w)
  scan_loop ifname (suc attempts) best last_err w =
      let (_, w1) = rescan ifname w in
      let (waited, w2) = h.sleep w1 in
      scan_round (λ best last_err w. scan_loop ifname attempts best last_err w) best last_err waited
        w2 (list_aps ifname w2)

  -- The helper `Scan` of nm.go.
  unfoldable pub scan : Text → Action W (List ListedAp)
  scan ifname = scan_loop ifname scan_attempts [] none

  -- `none` is `ok == false`.
  abbrev pub in_use_ap : Result (List ListedAp) → Option ListedAp
  in_use_ap (err e) = none
  in_use_ap (ok aps) = find (λ ap. ap.in_use) aps

  unfoldable pub current_ap : Text → W → Option ListedAp × W
  current_ap ifname w = let (aps, w') = list_aps ifname w in (in_use_ap aps, w')

-- The closure `add` of `parseKeyMgmt`, under its test.
abbrev pub add_if : Bool → KeyMgmt → List KeyMgmt → List KeyMgmt
add_if test k out = if test && not (any (λ j. j == k) out) then out ++ k ∷ [] else out

unfoldable pub key_mgmts_of : Text → List KeyMgmt
key_mgmts_of sec =
    let out = add_if (contains sec (text "WPA3")) key_sae [] in
    let out = add_if (contains sec (text "802.1X")) key_wpa_eap out in
    let out = add_if (contains sec (text "OWE")) key_owe out in
    let out =
      add_if
        (contains sec (text "WPA2")
          || contains sec (text "WPA1")
          || contains sec (text "WPA-")
          || sec == text "WPA")
        key_wpa_psk out in
    add_if (length out == 0) key_wpa_psk out

unfoldable pub parse_key_mgmt : Text → List KeyMgmt
parse_key_mgmt s =
    let sec = to_upper (trim_space s) in if sec == [] then key_none ∷ [] else key_mgmts_of sec

unfoldable pub to_ap : ListedAp → Ap
to_ap ap = record {
  ssid = ap.ssid;
  bssid = ap.bssid;
  signal = ap.signal;
  freq_mhz = ap.freq_mhz;
  key_mgmt = parse_key_mgmt ap.security;
}

module _ {W : Type 0} (h : Host W) where
  unfoldable pub nmcli_scan : Text → Action W (List Ap)
  nmcli_scan iface = do aps ← scan h iface; return (map to_ap aps)
