-- ===== src/Wnet/Ubus/Convert.antt =====
-- internal/wnet/ubus/convert.go: what iwinfo, UCI and netifd answer, in the terms of the domain.
-- A map is the list of its members in the order in which the code ranges over them.
pub mod Iwinfo
pub mod Wireless
pub mod Bounds
use wfm.Prelude.{
  ℕ, Bool, true, false, not, ◌&&◌, ◌||◌, List, [], ◌∷◌, ◌++◌, map, Option, none, some, Text, text,
  text_eq, nat_eq, ◌==◌, ◌!=◌, if◌then◌else◌, any, to_lower, trim_space, has_prefix, contains,
}
use wfm.Prelude.Int.{ℤ, pos, negsuc, ltbℤ, ◌*ℤ◌, quot, pos_part, int_eq}
use wfm.Wnet.Types.{
  KeyMgmt, key_none, key_wpa_psk, key_sae, key_wpa_eap, key_owe, Ap, SecurityKind, sec_open,
  sec_psk, sec_enterprise, key_mgmt_eq,
}

-- The struct `encryption`, of which wfm reads these fields.
pub record Encryption : Type 0 where
  pub enabled : Bool
  pub authentication : List Text

pub record ScanResult : Type 0 where
  pub ssid : Text
  pub bssid : Text
  pub mhz : ℕ
  pub quality : ℤ
  pub quality_max : ℤ
  pub encryption : Encryption

pub record IwinfoInfo : Type 0 where
  pub ssid : Text
  pub bssid : Text
  pub mode : Text
  pub quality : ℤ
  pub quality_max : ℤ
  pub hw_addr : Text

abbrev pub clamp_100 : ℤ → ℤ
clamp_100 v = if ltbℤ v (pos 0) then pos 0 else if ltbℤ (pos 100) v then pos 100 else v

-- Without the overflow of `q * 100`.
unfoldable pub signal_quality : (q qmax : ℤ) → ℤ
signal_quality q qmax =
    if ltbℤ (pos 0) qmax then clamp_100 (quot (q *ℤ pos 100) (pos_part qmax)) else pos 0

-- `add`, behind the methods that are there.
abbrev pub add_method : List KeyMgmt → Bool → KeyMgmt → List KeyMgmt
add_method out there k = if there && not (any (λ x. x == k) out) then out ++ k ∷ [] else out

abbrev pub or_psk : List KeyMgmt → List KeyMgmt
or_psk [] = key_wpa_psk ∷ []
or_psk (k ∷ ks) = k ∷ ks

unfoldable pub enc_to_key_mgmt : Encryption → List KeyMgmt
enc_to_key_mgmt e =
    let auth : Text → Bool = λ name. any (λ a. to_lower a == name) e.authentication in
    let out1 = add_method [] (auth (text "sae")) key_sae in
    let out2 = add_method out1 (auth (text "owe")) key_owe in
    let out3 = add_method out2 (auth (text "8021x") || auth (text "eap")) key_wpa_eap in
    let out4 = add_method out3 (auth (text "psk")) key_wpa_psk in
    if e.enabled then or_psk out4 else key_none ∷ []

unfoldable pub ap_from_scan : ScanResult → Ap
ap_from_scan r = record {
  ssid = r.ssid;
  bssid = to_lower r.bssid;
  signal = signal_quality r.quality r.quality_max;
  freq_mhz = r.mhz;
  key_mgmt = enc_to_key_mgmt r.encryption;
}

unfoldable pub is_associated : Text → Bool
is_associated bssid =
    let b = trim_space bssid in b != [] && not (has_prefix b (text "00:00:00:00:00:00"))

abbrev pub bool_to_uci : Bool → Text
bool_to_uci true = text "1"
bool_to_uci false = text "0"

abbrev pub sec_type : SecurityKind → Text
sec_type sec_psk = text "psk"
sec_type sec_enterprise = text "8021x"
sec_type sec_open = text "open"

unfoldable pub enc_str_to_sec_kind : Text → SecurityKind
enc_str_to_sec_kind enc =
    let e = to_lower (trim_space enc) in
    if e == [] || e == text "none"
    then sec_open
    else if contains e (text "8021x")
        || contains e (text "wpa-eap")
        || contains e (text "wpa2-eap")
        || contains e (text "wpa3-eap")
    then sec_enterprise
    else sec_psk

abbrev pub sec_kind_to_enc : SecurityKind → Text
sec_kind_to_enc sec_psk = text "psk2"
sec_kind_to_enc sec_enterprise = text "wpa2"
sec_kind_to_enc sec_open = text "none"
