-- ===== src/Telemetry/Devices.antt =====
-- `mergeKnownDevices` of telemetry_devices.go: the devices that the leases, the static hosts and the
-- bridge add to those that are seen.
pub mod Kept
pub mod Grown
use yachtsense_link_emulator.Common.{
  ℕ, zero, suc, ◌-◌, ◌%◌, Bool, true, false, not, ◌&&◌, ◌||◌, List, [], ◌∷◌, ◌++◌, Option, none,
  some, ltb, leb, ◌==◌, if◌then◌else◌, length, map,
}
use yachtsense_link_emulator.Common.Bytes.{
  Bytes, codes, equal, split, to_lower, has_prefix, lower_byte,
}
use yachtsense_link_emulator.Config.Text.{space_length}
use yachtsense_link_emulator.Config.Interfaces.{text_before}
use yachtsense_link_emulator.Engine.Observe.{Table, lookup, store}
use yachtsense_link_emulator.Telemetry.Sections.{UciSection, uci_sections, uv}
use yachtsense_link_emulator.Telemetry.Json.{
  TextEnv, Json, Members, value_at, obj, list, text, text_of, first, is_one_of,
}

-- `DeviceView`
pub record DeviceView : Type 0 where
  pub device_name : Bytes
  pub device_ip : Bytes
  pub mac : Bytes
  pub on_interface : Bytes
  pub connection : Bytes
  pub device_state : Bytes
  pub ssid : Bytes

-- `net.ParseMAC`, and whether `net.ParseIP` gives an address
pub record Addresses : Type 0 where
  pub parse_mac : Bytes → Option Bytes
  pub is_ip : Bytes → Bool

-- The devices, and the places of those with a hardware address and with an address
pub record Merge : Type 0 where
  pub devices : List DeviceView
  pub by_mac : Table ℕ
  pub by_ip : Table ℕ

-- `m[k] = i`, where `k` is not empty
abbrev pub place : Bytes → ℕ → Table ℕ → Table ℕ
place [] i m = m
place (c ∷ k) i m = store (c ∷ k) i m

unfoldable pub places : ℕ → List DeviceView → Table ℕ × Table ℕ → Table ℕ × Table ℕ
unfolding store
places i [] m = m
places i (d ∷ ds) (macs, ips) = places (suc i) ds (place d.mac i macs, place d.device_ip i ips)

unfoldable pub change_at : ℕ → (DeviceView → DeviceView) → List DeviceView → List DeviceView
change_at i f [] = []
change_at zero f (d ∷ ds) = f d ∷ ds
change_at (suc i) f (d ∷ ds) = d ∷ change_at i f ds

abbrev pub or_else : Bytes → Bytes → Bytes
or_else [] t = t
or_else (c ∷ s) t = c ∷ s

-- The name and the address are filled in where they are empty.
abbrev pub fill : DeviceView → DeviceView → DeviceView
fill new d = record d {
  device_name = or_else d.device_name new.device_name;
  device_ip = or_else d.device_ip new.device_ip;
}

abbrev pub place_of : Bytes → Table ℕ → Option ℕ
place_of [] m = none
place_of (c ∷ k) m = lookup (c ∷ k) m

abbrev pub or_place : Option ℕ → Option ℕ → Option ℕ
or_place none j = j
or_place (some i) j = some i

abbrev pub is_mac : Option Bytes → Bool
is_mac none = false
is_mac (some hw) = true

abbrev pub add_at : Option ℕ → DeviceView → Merge → Merge
add_at (some i) d s = record s { devices = change_at i (fill d) s.devices }
add_at none d s = if leb 256 (length s.devices) then s else record {
  devices = s.devices ++ d ∷ [];
  by_mac = place d.mac (length s.devices) s.by_mac;
  by_ip = place d.device_ip (length s.devices) s.by_ip;
}

-- `add`
unfoldable pub add_device : TextEnv → Addresses → DeviceView → Merge → Merge
unfolding change_at store lookup to_lower
add_device env net d s =
    let low = record d { mac = to_lower env.unicode_lower d.mac } in
    if not (is_mac (net.parse_mac low.mac)) && not (net.is_ip low.device_ip)
    then s
    else add_at (or_place (place_of low.mac s.by_mac) (place_of low.device_ip s.by_ip)) low s

-- `strings.Fields`: the word that is read, and the bytes of white space that are still to be skipped
unfoldable pub words_from_spaces : Bytes → ℕ → Bytes → List Bytes
words_from_spaces [] skip [] = []
words_from_spaces (w ∷ word) skip [] = (w ∷ word) ∷ []
words_from_spaces word (suc skip) (c ∷ s) = words_from_spaces word skip s
words_from_spaces [] zero (c ∷ s) =
    let n = space_length (c ∷ s) in
    let inside = words_from_spaces (c ∷ []) 0 s in
    let behind = words_from_spaces [] (n - 1) s in if n == 0 then inside else behind
words_from_spaces (w ∷ word) zero (c ∷ s) =
    let n = space_length (c ∷ s) in
    let inside = words_from_spaces ((w ∷ word) ++ c ∷ []) 0 s in
    let behind = words_from_spaces [] (n - 1) s in if n == 0 then inside else (w ∷ word) ∷ behind

abbrev pub known_device : Bytes → Bytes → Bytes → DeviceView
known_device name mac ip = record {
  device_name = name;
  device_ip = ip;
  mac = mac;
  on_interface = [];
  connection = codes "LAN";
  device_state = codes "known";
  ssid = [];
}

-- A line of the leases: time, hardware address, address, name
abbrev pub add_lease : TextEnv → Addresses → List Bytes → Merge → Merge
add_lease env net (_ ∷ mac ∷ ip ∷ name ∷ _) s =
    if net.is_ip ip
    then add_device env net
        (known_device (text_of env (if equal name (codes "*") then [] else name)) mac ip) s
    else s
add_lease env net _ s = s

unfoldable pub add_leases : TextEnv → Addresses → List Bytes → Merge → Merge
unfolding add_device words_from_spaces text_of
add_leases env net [] s = s
add_leases env net (line ∷ lines) s =
    add_leases env net lines (add_lease env net (words_from_spaces [] 0 line) s)

abbrev pub comma_to_space : ℕ → ℕ
comma_to_space c = if c == b',' then b' ' else c

abbrev pub head_or_empty : List Bytes → Bytes
head_or_empty [] = []
head_or_empty (a ∷ _) = a

abbrev pub add_host : TextEnv → Addresses → Bytes → List Bytes → List Bytes → Merge → Merge
add_host env net name [] macs s = s
add_host env net name (ip ∷ _) macs s =
    add_device env net (known_device (text_of env name) (head_or_empty macs) ip) s

-- The static hosts of the DHCP configuration
unfoldable pub add_hosts : TextEnv → Addresses → List UciSection → Merge → Merge
unfolding add_device words_from_spaces text_of uv equal
add_hosts env net [] s = s
add_hosts env net (h ∷ hs) s = add_hosts env net hs (
    if not (equal h.typ (codes "host"))
    then s
    else add_host env net (uv h (codes "name")) (words_from_spaces [] 0 (uv h (codes "ip")))
        (words_from_spaces [] 0 (map comma_to_space (uv h (codes "mac")))) s)

-- A hardware address of one device, not of a group
abbrev pub is_unicast_mac : Option Bytes → Bool
is_unicast_mac none = false
is_unicast_mac (some []) = false
is_unicast_mac (some (b ∷ _)) = b % 2 == 0

abbrev pub has_flag : TextEnv → List Json → Bool
has_flag env [] = false
has_flag env (v ∷ vs) =
    equal (text env v) (codes "self") || (equal (text env v) (codes "permanent") || has_flag env vs)

abbrev pub on_vpn : DeviceView → DeviceView
on_vpn d = record d { connection = codes "VPN" }

abbrev pub bridge_device : Bytes → Bytes → DeviceView
bridge_device mac dev = record {
  device_name = [];
  device_ip = [];
  mac = mac;
  on_interface = dev;
  connection = codes "LAN";
  device_state = codes "recently_seen";
  ssid = [];
}

abbrev pub add_bridge_at : TextEnv → Addresses → Bytes → Bytes → Option ℕ → Merge → Merge
add_bridge_at env net mac dev (some i) s =
    if has_prefix dev (codes "vxlan")
    then record s { devices = change_at i on_vpn s.devices }
    else s
add_bridge_at env net mac dev none s = add_device env net (bridge_device mac dev) s

-- An entry of the bridge's forwarding table; `local` tells the names of the local interfaces.
unfoldable pub add_entry : TextEnv → Addresses → (Bytes → Bool) → Members → Merge → Merge
unfolding add_device change_at first text_of value_at to_lower has_prefix lookup equal
add_entry env net is_local f s =
    let dev = first env f (codes "dev" ∷ []) in
    let mac = to_lower env.unicode_lower (first env f (codes "mac" ∷ [])) in
    if not (is_local (first env f (codes "master" ∷ []))) && not (is_local dev)
    then s
    else if not (is_unicast_mac (net.parse_mac mac))
    then s
    else if has_flag env (list (value_at (codes "flags") f))
        || equal (map lower_byte (first env f (codes "state" ∷ []))) (codes "permanent")
    then s
    else add_bridge_at env net mac dev (lookup mac s.by_mac) s

unfoldable pub add_entries : TextEnv → Addresses → (Bytes → Bool) → List Json → Merge → Merge
unfolding add_entry
add_entries env net is_local [] s = s
add_entries env net is_local (v ∷ vs) s =
    add_entries env net is_local vs (add_entry env net is_local (obj v) s)

-- The order of the view: by connection, then by address
abbrev pub device_before : DeviceView → DeviceView → Bool
device_before a b =
    if equal a.connection b.connection
    then text_before a.device_ip b.device_ip
    else text_before a.connection b.connection

unfoldable pub insert_device : DeviceView → List DeviceView → List DeviceView
unfolding text_before equal
insert_device d [] = d ∷ []
insert_device d (e ∷ es) =
    let rest = insert_device d es in if device_before e d then e ∷ rest else d ∷ e ∷ es

-- `sort.SliceStable`
unfoldable pub sort_devices : List DeviceView → List DeviceView
unfolding insert_device
sort_devices [] = []
sort_devices (d ∷ ds) = insert_device d (sort_devices ds)

-- The merge before the devices are sorted
unfoldable pub merged :
    TextEnv → Addresses → List DeviceView → Bytes → Bytes → Json → (Bytes → Bool) → Merge
unfolding add_leases add_hosts add_entries places split uci_sections
merged env net devices dhcp leases fdb is_local =
    let (macs, ips) = places 0 devices ([], []) in
    let start : Merge = record { devices = devices; by_mac = macs; by_ip = ips } in
    add_entries env net is_local (list fdb)
      (add_hosts env net (uci_sections dhcp) (add_leases env net (split b'\n' leases) start))

-- `mergeKnownDevices`
unfoldable pub merge_known_devices :
    TextEnv → Addresses → List DeviceView → Bytes → Bytes → Json → (Bytes → Bool) → List DeviceView
unfolding merged sort_devices
merge_known_devices env net devices dhcp leases fdb is_local =
    sort_devices (merged env net devices dhcp leases fdb is_local).devices
