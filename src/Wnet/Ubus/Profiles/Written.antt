-- ===== src/Wnet/Ubus/Profiles/Written.antt =====
-- The options of a station that `writeStation` of internal/wnet/ubus/profile.go writes, and where.
use wfm.Prelude.{
  Bool, true, false, not, List, [], ◌∷◌, ◌++◌, Option, none, some, ◌≡◌, ◌≢◌, refl, sym, subst,
  arith, Text, text, text_eq, nat_eq, ◌==◌, ◌!=◌, if◌then◌else◌, Bool-cases, inl, inr, append_assoc,
  append-nil, to_lower, lower_byte, trim_space, trim_left, trim_right, is_space, contains,
  has_prefix,
}
use wfm.Wnet.Types.{SecurityKind, sec_open, sec_psk, sec_enterprise, security_kind_eq, Security}
use wfm.Wnet.Backend.{ok, after-ok}
use wfm.Wnet.Ubus.Convert.{bool_to_uci, enc_str_to_sec_kind, sec_kind_to_enc}
use wfm.Wnet.Ubus.Convert.Wireless.{WifiIface}
use wfm.Wnet.Ubus.Wireless.{Values, Wireless}
use wfm.Wnet.Ubus.Changes.{
  Makes, IsStation, value_of, chained, choosing, adding, committing, Change, sets, adds, commits,
}
use wfm.Wnet.Ubus.Profiles.{
  Config, section_name, station_values, key_values, kept_key, write_new, write_station,
}
use wfm.Wnet.Ubus.Profiles.Found.{set_and_commit-Makes}

-- The key of a station: that of an open network is cleared, and a passphrase that is not given is
-- the key that the section had.
abbrev pub key_of : SecurityKind → (passphrase existing : Text) → Option Text
key_of sec_open passphrase existing = some []
key_of sec_psk passphrase existing =
    if passphrase != [] then some passphrase else if existing != [] then some existing else none
key_of sec_enterprise passphrase existing = none

abbrev pub key_in : Option WifiIface → Text
key_in none = []
key_in (some w) = w.key

-- An option that is written, or not.
abbrev opt : Text → Option Text → Values
opt name none = []
opt name (some v) = (name, v) ∷ []

abbrev pub with_radio : Option Text → Values → Values
with_radio radio values = values ++ opt (text "device") radio

abbrev options : (ssid enc : Text) → (on : Bool) → (network key radio : Option Text) → Values
options ssid enc on network key radio =
    (text "mode", text "sta")
    ∷ (text "ssid", ssid)
    ∷ (text "encryption", enc)
    ∷ (text "disabled", bool_to_uci (not on))
    ∷ (opt (text "network") network ++ (opt (text "key") key ++ opt (text "device") radio))

kept_key_eq :
    (existing : Option WifiIface)
    → kept_key existing
      ≡ opt (text "key") (if key_in existing != [] then some (key_in existing) else none)
unfolding text_eq
kept_key_eq none = refl
kept_key_eq (some w) = elim (Bool-cases (w.key != [])) [ inl e ↦ rw e refl | inr e ↦ rw e refl ]

key_values_eq :
    (kind : SecurityKind) (passphrase : Text) (existing : Option WifiIface)
    → key_values kind passphrase existing
      ≡ opt (text "key") (key_of kind passphrase (key_in existing))
key_values_eq sec_open passphrase existing = refl
key_values_eq sec_enterprise passphrase existing = refl
key_values_eq sec_psk passphrase existing = elim (Bool-cases (passphrase != [])) [
  | inl e ↦ rw e refl
  | inr e ↦ rw e (kept_key_eq existing)
]

abbrev network_of : Config → Option Text
network_of cfg = if cfg.network == [] then none else some cfg.network

network_eq :
    (cfg : Config)
    → (if cfg.network != [] then (text "network", cfg.network) ∷ [] else [])
      ≡ opt (text "network") (network_of cfg)
network_eq cfg = ground arith

station_values_eq :
    (cfg : Config) (ssid : Text) (sec : Security) (on : Bool) (existing : Option WifiIface)
    (radio : Option Text)
    → with_radio radio (station_values cfg ssid sec on existing)
      ≡ options ssid
          (sec_kind_to_enc sec.kind)
          on
          (network_of cfg)
          (key_of sec.kind sec.passphrase (key_in existing))
          radio
unfolding station_values
station_values_eq cfg ssid sec on existing radio =
    rw (network_eq cfg, key_values_eq sec.kind sec.passphrase existing) (rw append_assoc refl)

literals : Unit {0}
unfolding text_eq nat_eq to_lower lower_byte trim_space trim_left trim_right is_space contains
    has_prefix enc_str_to_sec_kind
literals = tt

kind_kept :
    (kind : SecurityKind)
    → kind ≢ sec_enterprise
    → enc_str_to_sec_kind (sec_kind_to_enc kind) ≡ kind
unfolding literals
kind_kept sec_open ne = refl
kind_kept sec_psk ne = refl
kind_kept sec_enterprise ne = absurd (ne refl)

disabled_eq : (on : Bool) → some (bool_to_uci (not on)) ≡ some (if on then text "0" else text "1")
disabled_eq true = refl
disabled_eq false = refl

network_found :
    (network key radio : Option Text) (ssid enc : Text) (on : Bool)
    → (value_of (text "network") (options ssid enc on network key radio) ≡ network)
      × (value_of (text "key") (options ssid enc on network key radio) ≡ key)
      × (value_of (text "device") (options ssid enc on network key radio) ≡ radio)
unfolding literals
network_found none none none ssid enc on = (refl, refl, refl)
network_found none none (some d) ssid enc on = (refl, refl, refl)
network_found none (some k) none ssid enc on = (refl, refl, refl)
network_found none (some k) (some d) ssid enc on = (refl, refl, refl)
network_found (some n) none none ssid enc on = (refl, refl, refl)
network_found (some n) none (some d) ssid enc on = (refl, refl, refl)
network_found (some n) (some k) none ssid enc on = (refl, refl, refl)
network_found (some n) (some k) (some d) ssid enc on = (refl, refl, refl)

options-IsStation :
    (cfg : Config) (ssid : Text) (kind : SecurityKind) (on : Bool) (key radio : Option Text)
    → kind ≢ sec_enterprise
    → IsStation cfg ssid kind on key radio
        (options ssid (sec_kind_to_enc kind) on (network_of cfg) key radio)
unfolding literals
options-IsStation cfg ssid kind on key radio ne =
    let (n, k, d) = network_found (network_of cfg) key radio ssid (sec_kind_to_enc kind) on in
    record {
      mode = refl;
      same_ssid = refl;
      encryption = sec_kind_to_enc kind;
      written = refl;
      same_kind = kind_kept kind ne;
      disabled = disabled_eq on;
      network = n;
      same_key = k;
      device = d;
    }

pub station_values-IsStation :
    (cfg : Config) (ssid : Text) (sec : Security) (on : Bool) (existing : Option WifiIface)
    (radio : Option Text)
    → sec.kind ≢ sec_enterprise
    → IsStation cfg ssid sec.kind on
        (key_of sec.kind sec.passphrase (key_in existing))
        radio
        (with_radio radio (station_values cfg ssid sec on existing))
station_values-IsStation cfg ssid sec on existing radio ne =
    subst (IsStation cfg ssid sec.kind on (key_of sec.kind sec.passphrase (key_in existing)) radio)
      (sym (station_values_eq cfg ssid sec on existing radio))
      (options-IsStation cfg ssid sec.kind on (key_of sec.kind sec.passphrase (key_in existing))
        radio ne)

module _ {S : Type 0} (cfg : Config) (r : Wireless S) where
  -- A new section with the options of a station on a radio.
  pub record IsAdded (ssid : Text) (kind : SecurityKind) (on : Bool) (key : Option Text)
      (more : List Change) (s t : S) : Type 0 where
    pub values : Values
    pub radio : Text
    pub station : IsStation cfg ssid kind on key (some radio) values
    pub makes : Makes r (adds (section_name cfg ssid kind) values ∷ commits ∷ more) s t

  pub write_new-IsAdded :
      (ssid : Text) (sec : Security) (on : Bool) (s t : S)
      → sec.kind ≢ sec_enterprise
      → write_new cfg r ssid sec on s ≡ (ok tt, t)
      → IsAdded ssid sec.kind on (key_of sec.kind sec.passphrase []) [] s t
  write_new-IsAdded ssid sec on s t ne e =
      let (radio, s1, e1, r1) = after-ok _ (r.pick_radio s) tt t e in
      let (_, s2, e2, r2) =
        after-ok _
          (r.uci_add (section_name cfg ssid sec.kind)
            (with_radio (some radio) (station_values cfg ssid sec on none)) s1)
          tt t r1 in
      record {
        values = with_radio (some radio) (station_values cfg ssid sec on none);
        radio = radio;
        station = station_values-IsStation cfg ssid sec on none (some radio) ne;
        makes = chained (choosing e1) (chained (adding e2) (committing r2));
      }

  -- A section with the options of a station in place of those that it had.
  pub record IsRewritten (cur : WifiIface) (ssid : Text) (kind : SecurityKind) (on : Bool)
      (key : Option Text) (s t : S) : Type 0 where
    pub values : Values
    pub station : IsStation cfg ssid kind on key none values
    pub makes : Makes r (sets cur.section values ∷ commits ∷ []) s t

  pub set_station-IsRewritten :
      (cur : WifiIface) (ssid : Text) (sec : Security) (on : Bool) (s t : S)
      → sec.kind ≢ sec_enterprise
      → write_station cfg r ssid sec on (some cur) s ≡ (ok tt, t)
      → IsRewritten cur ssid sec.kind on (key_of sec.kind sec.passphrase cur.key) s t
  unfolding write_station
  set_station-IsRewritten cur ssid sec on s t ne e = record {
    values = station_values cfg ssid sec on (some cur);
    station =
        subst (IsStation cfg ssid sec.kind on (key_of sec.kind sec.passphrase cur.key) none)
          (append-nil _) (station_values-IsStation cfg ssid sec on (some cur) none ne);
    makes = set_and_commit-Makes cfg r cur.section _ s t e;
  }
