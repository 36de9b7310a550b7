-- ===== src/Wnet/Ubus/Interfaces.antt =====
-- internal/wnet/ubus/ubus.go: the interfaces and scans.
use wfm.Prelude.{Bool, true, ◌||◌, List, [], ◌∷◌, ◌++◌, map, Text, text_eq, ◌!=◌, to_lower}
use wfm.Wnet.Types.{err_not_found, err_unsupported, Interface, Ap, security_kind_eq, ip_method_eq}
use wfm.Wnet.Backend.{Result, ok, err, Action, ◌>>=◌, return, fail}
use wfm.Wnet.Ubus.Convert.{IwinfoInfo, ap_from_scan, is_associated}
use wfm.Wnet.Ubus.Wireless.{Wireless}

module _ {S : Type 0} (r : Wireless S) where
  unfoldable pub to_iface : (device : Text) → IwinfoInfo → Interface
  to_iface device info = record {
    name = device;
    mac = to_lower info.hw_addr;
    pci = [];
    powered = true;
    up = is_associated info.bssid || info.ssid != [];
    desc = info.mode;
  }

  abbrev pub iface_or_none : Text → Result IwinfoInfo → List Interface
  iface_or_none d (err e) = []
  iface_or_none d (ok info) = to_iface d info ∷ []

  -- The loop of `Interfaces`.
  unfoldable pub ifaces_of : List Text → S → List Interface × S
  ifaces_of [] s = ([], s)
  ifaces_of (d ∷ ds) s =
      let (info, s1) = r.info d s in
      let (out, s2) = ifaces_of ds s1 in (iface_or_none d info ++ out, s2)

  unfoldable pub ubus_interfaces : Action S (List Interface)
  ubus_interfaces = do devs ← r.devices; λ s. let (out, s') = ifaces_of devs s in (ok out, s')

  abbrev pub iface_or_not_found : Text → Result IwinfoInfo × S → Result Interface × S
  iface_or_not_found name (err e, s) = (err err_not_found, s)
  iface_or_not_found name (ok info, s) = (ok (to_iface name info), s)

  unfoldable pub ubus_interface : Text → Action S Interface
  ubus_interface name s = iface_or_not_found name (r.info name s)

  unfoldable pub ubus_set_power : Text → Bool → Action S Interface
  ubus_set_power name on = fail err_unsupported

  unfoldable pub ubus_scan : Text → Action S (List Ap)
  ubus_scan iface = do results ← r.scan_results iface; return (map ap_from_scan results)
