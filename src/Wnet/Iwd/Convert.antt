-- ===== src/Wnet/Iwd/Convert.antt =====
-- internal/wnet/iwd/convert.go
pub mod Bounds
use wfm.Prelude.{
  ℕ, Bool, true, false, ◌||◌, List, [], ◌∷◌, Text, text, text_eq, ◌==◌, ltb, not, if◌then◌else◌,
}
use wfm.Prelude.Int.{ℤ, pos, negsuc, ltbℤ, ◌+ℤ◌, ◌*ℤ◌, quot}
use wfm.Wnet.Types.{
  KeyMgmt, key_none, key_wpa_psk, key_wpa_eap, SecurityKind, sec_open, sec_psk, sec_enterprise,
  ConnState, state_unspecified, state_idle, state_associating, state_connected, state_disconnecting,
}

unfoldable pub dbm_to_quality : ℤ → ℤ
dbm_to_quality dbm =
    if not (ltbℤ (negsuc 99) dbm)
    then pos 0
    else if not (ltbℤ dbm (negsuc 49))
    then pos 100
    else pos 2 *ℤ (dbm +ℤ pos 100)

-- The argument is an `int16`.
unfoldable pub signal_to_quality : ℤ → ℤ
unfolding dbm_to_quality
signal_to_quality iwd_signal = dbm_to_quality (quot iwd_signal 100)

unfoldable pub iwd_type_to_key_mgmt : Text → List KeyMgmt
iwd_type_to_key_mgmt t =
    if t == text "psk"
    then key_wpa_psk ∷ []
    else if t == text "8021x"
    then key_wpa_eap ∷ []
    else if t == text "open"
    then key_none ∷ []
    else key_none ∷ []

abbrev pub sec_kind_to_type : SecurityKind → Text
sec_kind_to_type sec_psk = text "psk"
sec_kind_to_type sec_enterprise = text "8021x"
sec_kind_to_type sec_open = text "open"

unfoldable pub type_to_sec_kind : Text → SecurityKind
type_to_sec_kind t =
    if t == text "psk" then sec_psk else if t == text "8021x" then sec_enterprise else sec_open

unfoldable pub map_state : Text → ConnState
map_state s =
    if s == text "connected" || s == text "roaming"
    then state_connected
    else if s == text "connecting"
    then state_associating
    else if s == text "disconnecting"
    then state_disconnecting
    else if s == text "disconnected"
    then state_idle
    else state_unspecified
