-- ===== src/Lib.antt =====
-- Verification of wfm, a daemon and client that manage Wi-Fi through one gRPC interface over several
-- backends (NetworkManager by nmcli or D-Bus, iwd, OpenWrt's ubus).
--
-- The program. `internal/wnet` is the domain model: the interface `Backend` with its types
-- (backend.go) and a wrapper that hides interfaces from a backend by rules (exclude.go).
-- `internal/server` implements the gRPC services over a `Backend`, with a cache of scans that is
-- kept on disk. `internal/tui` is a terminal client of these services.
--
-- The files.
--   Prelude    Shared names: Go strings as lists of bytes (Prelude/Strings), slices as lists with
--              lengths in ℕ (Prelude/Lists), Boolean tests and `==` (Prelude/Tests), `int` of 64 bits
--              with its conversions (Prelude/Int), and the splitting and parsing of strings
--              (Prelude/Splitting).
--   Wnet       Wnet/Types: the types of internal/wnet/backend.go. Wnet/Backend: the interface
--              `Backend` as a record of calls that pass the state of the world on.
--              Wnet/Exclude: internal/wnet/exclude.go; `matches`, `match`, `new_exclude_set`,
--              `normalize_mac`, `pci_match` are its functions of these names, `filtered_interface`
--              and so on the methods of `filteredBackend`, `with_excluded` is `WithExcluded`.
--              Wnet/Exclude/Spec says what a rule means; Normal, Rules, Lookup, Verdict,
--              Hiding, Absent and Connections hold the proofs.
--              Wnet/Local: internal/wnet/localdev.go.
--   Wnet/Nmcli internal/wnet/nmcli. Terse: the terse output of nmcli. Devices, Scanning, Saved: the
--              helpers of nm.go (`scan` for `Scan`, `list_aps` for `listAPs`). Settings: the
--              conversions of backend.go. Profiles, Connections, Watching: its methods
--              (`nmcli_watch` for `Backend.Watch`). Adapter: them all as a `Backend`.
--              Terse/RoundTrip, Scanning/Attempts, Settings/RoundTrip, Settings/Families,
--              Watching/Following and Watching/Polling hold the proofs.
--   Wnet/Iwd   internal/wnet/iwd. Convert: convert.go. Names, Profile, Profile/Ini: profile.go
--              (`render_profile` for `renderProfile`, `parse_ini` for `parseINI`). Convert/Bounds,
--              Names/RoundTrip and the other children of Profile hold the proofs: Words and Lines
--              on one line, Written and Addresses on the file as it is read, Lookups, Found,
--              Sections and Values on the values found in it, RoundTrip on the profile. Store: the
--              operations on profiles of iwd.go (`iwd_add_profile` for `Backend.AddProfile`);
--              Store/Adding holds the proofs.
--              Kernel: ip.go, over the content of the kernel's files. Watching: the function `emit`
--              of `Backend.Watch` in iwd.go, called for the states of the station one after the
--              other; Watching/Following holds the proofs.
--   Wnet/Ubus  internal/wnet/ubus. Json: how encoding/json decodes. Rpc, Client: client.go (`call` for
--              `Client.Call`, `raw_call` for `rawCall`). Convert with Iwinfo and Wireless: convert.go.
--              Wireless: what the backend does with the node, which Node implements by the calls of
--              ubus.go and which Profiles (profile.go), Interfaces (ubus.go), Connections and
--              Watching (conn.go) run on (`ubus_activate` for `Backend.Activate`). Adapter: them all
--              as a `Backend`. Changes: the calls that change the node, as a relation of states, with
--              what they write. Client/Sessions, Client/Requests, Convert/Bounds, Watching/Following and the children of Profiles and
--              Connections hold the proofs.
--   Wnet/Nmdbus internal/wnet/nmdbus. Convert: convert.go. Variants, Settings: settings.go
--              (`build_settings` for `buildSettings`). Patching: the operations on profiles of
--              nmdbus.go (`nm_patch_profile` for `Backend.PatchProfile`). The children of Settings
--              and Patching hold the proofs.
--   Server     Server/Messages: the messages of internal/wifi. Server/Convert: the mapping
--              between messages and domain. Interfaces, Profiles, Connections, AccessPoints: the
--              handlers, `interface_get` for `InterfaceServer.Get` and so on, `profile_patch_rpc`
--              for `ProfileServer.Patch`. ScanCache: internal/server/scan_cache.go.
--              ScanCache/Entries, AccessPoints/Serving, Codes, Secrets and Watching hold the proofs.
--   Tui        Tui/Model: the state and `Update` of internal/tui/model.go, which returns commands
--              as values. Tui/Scans: the runtime as a step relation, in which any running command
--              may finish next. Tui/Status: the status lookup of internal/tui/commands.go.
--              Scrolling, Triggering, Wellformed, Selecting, Scans/Flight and
--              Status/Resolving hold the proofs.
-- The Tests modules run the definitions on concrete data and apply the theorems to it.
--
-- How they interact. The server is proved over any `Backend`, so also over the one that
-- `with_excluded` returns. The handlers share `respond`; `access_point_scan` calls the cache by
-- `get` and `put`. The terminal interface sees the server only as commands that end with messages.
--
-- Choices. All functions are total: every loop is over a list, over the attempts left of a scan,
-- or over the waits that pass before the context of a watch is done, of which any number is
-- allowed; the digits of a number are written with the number as fuel. The wait of an activation
-- over ubus has 52 polls as fuel, which its 25 seconds never use up with waits of half a second.
-- Errors are told apart as `errors.Is` does, their texts are left out. Times are nanoseconds in ℕ,
-- for ubus milliseconds. The mutex of the cache is not modelled: each method is one step. A stream
-- of statuses is the list of what its client takes until it closes: over nmcli and iwd the client
-- may stop at a status, when the context is done at the send; over ubus it takes every status. The
-- ubus client has one caller at a time: the lock around its session, and an empty session that the
-- failed login of another caller leaves, are not modelled. MAC addresses and PCI names are
-- walked by bytes; `strings.ToLower` and `strings.TrimSpace` are modelled on ASCII. The lines of
-- an output are shorter than the limit of `bufio.Scanner`, 64 KB or the 1 MB that parseDetail
-- sets.
--
-- Parameters. `github.com/google/uuid` (`UuidLib`, with `IsUuidLib`: 16 bytes convert to a text
-- that parses back to them), the file system and the encoding of protobuf (`Storage`, with
-- `IsStorage`: what was written is read, what was encoded is decoded), the client's stream
-- (`send`), the client's calls `List` and `GetStatus` in the status lookup, the wifi daemon behind
-- `Backend`, and what the nmcli backend runs on (`Host`: commands by os/exec, the waits of a scan,
-- the links of sysfs), the parsing of addresses by the package net (`NetLib`), the hash behind
-- `DeriveID`, the files of the iwd store (`Files`, with `IsFiles`: what was written is listed and
-- read), and the diagnostics of iwd with the kernel's addresses and files (`Station`), and for
-- ubus the post of a request with its answer as JSON (`Endpoint`), the order in which Go ranges
-- over a map, the clock and the waits (`Node`). The calls on NetworkManager's settings over D-Bus
-- (`Bus`) and the parsing of addresses (`AddressLib`) are parameters of Wnet/Nmdbus, on a
-- little-endian machine. What a node does with its configuration is not assumed: `Makes`
-- says by which calls the backend changes it, over any node. Of the clock of a node, `IsTimed` is
-- assumed. The identifiers of the iwd store are told apart among the files that are there
-- (`IsApart`), not in general.
--
-- Not modelled. The D-Bus calls of the iwd backend (internal/wnet/iwd/iwd.go) and the addresses of
-- an interface (ip.go), the devices, scans, connections and signals of internal/wnet/nmdbus, the
-- locks around the session and HTTP of the ubus client, the atomic write of the cache file, the
-- view of the terminal interface and its timers, the command line (cmd), the generated gRPC stubs,
-- scripts and packaging.
pub mod Prelude
pub mod Wnet
pub mod Server
pub mod Tui
