-- ===== src/Wnet/Ubus/Adapter.antt =====
-- internal/wnet/ubus: the type `Backend`, which implements the interface of this name.
use wfm.Wnet.Backend.{Backend, return}
use wfm.Wnet.Ubus.Wireless.{Wireless}
use wfm.Wnet.Ubus.Client.{State}
use wfm.Wnet.Ubus.Node.{Node, node_wireless}
use wfm.Wnet.Ubus.Interfaces.{ubus_interfaces, ubus_interface, ubus_set_power, ubus_scan}
use wfm.Wnet.Ubus.Profiles.{
  Config, ubus_profiles, ubus_profile, ubus_add_profile, ubus_patch_profile, ubus_delete_profile,
}
use wfm.Wnet.Ubus.Connections.{ubus_activate, ubus_deactivate, ubus_connections, connection_by_id}
use wfm.Wnet.Ubus.Watching.{ubus_status, ubus_watch}

module _ {S : Type 0} (cfg : Config) (r : Wireless S) where
  unfoldable pub wireless_backend : Backend S
  wireless_backend = record {
    interfaces = ubus_interfaces r;
    interface = ubus_interface r;
    set_power = ubus_set_power r;
    scan = ubus_scan r;
    profiles = ubus_profiles cfg r;
    profile = ubus_profile cfg r;
    add_profile = ubus_add_profile cfg r;
    patch_profile = ubus_patch_profile cfg r;
    delete_profile = ubus_delete_profile cfg r;
    activate = ubus_activate cfg r;
    deactivate = ubus_deactivate cfg r;
    connections = ubus_connections cfg r;
    connection = connection_by_id cfg r;
    status = ubus_status cfg r;
    watch = ubus_watch cfg r;
    close = return tt;
  }

unfoldable pub ubus_backend : {W : Type 0} → Config → (n : Node W) → Backend (State n.endpoint)
unfolding wireless_backend
ubus_backend cfg n = wireless_backend cfg (node_wireless n)
