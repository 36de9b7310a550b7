-- ===== src/Wnet/Nmcli/Adapter.antt =====
-- internal/wnet/nmcli/backend.go: the type `Backend`, which implements the interface of this name.
use wfm.Wnet.Backend.{Backend, return}
use wfm.Wnet.Nmcli.Host.{Host}
use wfm.Wnet.Nmcli.Devices.{nmcli_interfaces, nmcli_interface, nmcli_set_power}
use wfm.Wnet.Nmcli.Scanning.{nmcli_scan}
use wfm.Wnet.Nmcli.Saved.{delete_connection, deactivate_connection}
use wfm.Wnet.Nmcli.Profiles.{
  nmcli_profiles, profile_by_uuid, nmcli_add_profile, nmcli_patch_profile,
}
use wfm.Wnet.Nmcli.Connections.{nmcli_activate, nmcli_connections, active_by_uuid}
use wfm.Wnet.Nmcli.Watching.{nmcli_status, nmcli_watch}

module _ {W : Type 0} (h : Host W) where
  unfoldable pub nmcli_backend : Backend W
  nmcli_backend = record {
    interfaces = nmcli_interfaces h;
    interface = nmcli_interface h;
    set_power = nmcli_set_power h;
    scan = nmcli_scan h;
    profiles = nmcli_profiles h;
    profile = profile_by_uuid h;
    add_profile = nmcli_add_profile h;
    patch_profile = nmcli_patch_profile h;
    delete_profile = delete_connection h;
    activate = nmcli_activate h;
    deactivate = deactivate_connection h;
    connections = nmcli_connections h;
    connection = active_by_uuid h;
    status = nmcli_status h;
    watch = nmcli_watch h;
    close = return tt;
  }
