-- ===== src/Wnet/Ubus/Convert/Bounds.antt =====
-- The access points that internal/wnet/ubus/convert.go makes of a scan.
use wfm.Prelude.{
  Bool, true, false, ◌||◌, List, [], ◌∷◌, ◌≡◌, ◌≢◌, ◌↔◌, arith, Text, text, text_eq, ◌==◌,
  if◌then◌else◌, Bool-cases, inl, inr, any, to_lower,
}
use wfm.Prelude.Int.{ℤ, pos, negsuc, ◌≤ℤ◌, ltbℤ, ◌*ℤ◌, quot, pos_part}
use wfm.Wnet.Types.{KeyMgmt, key_none, key_wpa_psk, key_sae, key_wpa_eap, key_owe, key_mgmt_eq}
use wfm.Wnet.Ubus.Convert.{
  Encryption, ScanResult, signal_quality, clamp_100, add_method, or_psk, enc_to_key_mgmt,
  ap_from_scan,
}

clamp_100_bounds : (v : ℤ) → (pos 0 ≤ℤ clamp_100 v) × (clamp_100 v ≤ℤ pos 100)
clamp_100_bounds (pos n) = ground arith
clamp_100_bounds (negsuc n) = ground arith

signal_quality_bounds :
    (q qmax : ℤ) → (pos 0 ≤ℤ signal_quality q qmax) × (signal_quality q qmax ≤ℤ pos 100)
unfolding signal_quality
signal_quality_bounds q qmax = elim (Bool-cases (ltbℤ (pos 0) qmax)) [
  | inl e ↦ rw e (clamp_100_bounds (quot (q *ℤ pos 100) (pos_part qmax)))
  | inr e ↦ rw e (ground arith)
]

-- No method stands twice.
abbrev pub IsDistinct : List KeyMgmt → Type 0
IsDistinct [] = Unit
IsDistinct (k ∷ ks) = (any (λ x. x == k) ks ≡ false) × IsDistinct ks

-- The methods of a network: not none of them, none twice, and open is the only one exactly if the
-- network is not secured.
abbrev pub IsMethods : Encryption → List KeyMgmt → Type 0
IsMethods e ks = (ks ≢ []) × IsDistinct ks × (((ks ≡ key_none ∷ []) ↔ (e.enabled ≡ false)))

add_method-IsMethods :
    (enabled sae owe eap psk : Bool)
    → let out1 = add_method [] sae key_sae in
      let out2 = add_method out1 owe key_owe in
      let out3 = add_method out2 eap key_wpa_eap in
      let out4 = add_method out3 psk key_wpa_psk in
      IsMethods
        (record { enabled = enabled; authentication = [] })
        (if enabled then or_psk out4 else key_none ∷ [])
unfolding key_mgmt_eq
add_method-IsMethods false sae owe eap psk = ground arith
add_method-IsMethods true true true true true = ground arith
add_method-IsMethods true true true true false = ground arith
add_method-IsMethods true true true false true = ground arith
add_method-IsMethods true true true false false = ground arith
add_method-IsMethods true true false true true = ground arith
add_method-IsMethods true true false true false = ground arith
add_method-IsMethods true true false false true = ground arith
add_method-IsMethods true true false false false = ground arith
add_method-IsMethods true false true true true = ground arith
add_method-IsMethods true false true true false = ground arith
add_method-IsMethods true false true false true = ground arith
add_method-IsMethods true false true false false = ground arith
add_method-IsMethods true false false true true = ground arith
add_method-IsMethods true false false true false = ground arith
add_method-IsMethods true false false false true = ground arith
add_method-IsMethods true false false false false = ground arith

-- The access point of a scan has a signal between 0 and 100, and key management methods that are
-- not none of them, none twice, and open alone exactly if the encryption is not enabled.
pub ap_from_scan-IsMethods :
    (r : ScanResult)
    → let ap = ap_from_scan r in
      ((pos 0 ≤ℤ ap.signal) × (ap.signal ≤ℤ pos 100)) × IsMethods r.encryption ap.key_mgmt
unfolding ap_from_scan enc_to_key_mgmt
ap_from_scan-IsMethods r =
    let auth : Text → Bool = λ name. any (λ a. to_lower a == name) r.encryption.authentication in
    (
      signal_quality_bounds r.quality r.quality_max,
      add_method-IsMethods r.encryption.enabled (auth (text "sae")) (auth (text "owe"))
          (auth (text "8021x") || auth (text "eap")) (auth (text "psk")),
    )
