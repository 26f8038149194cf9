-- ===== src/Telemetry/Devices/Grown.antt =====
-- The steps of `mergeKnownDevices` (telemetry_devices.go).
use mathlib.Core.List.{Perm}
use mathlib.Core.List.Perm
use yachtsense_link_emulator.Common.{
  ℕ, ◌≤◌, Bool, true, false, not, ◌&&◌, ◌||◌, List, [], ◌∷◌, Option, none, some, leb, if◌then◌else◌,
  length, length-append, map, ◌≡◌, refl, ◌∙◌, ◌⊎◌, inl, inr, arith, Bool-cases,
}
use yachtsense_link_emulator.Common.Bytes.{
  Bytes, codes, equal, split, has_prefix, to_lower, lower_byte,
}
use yachtsense_link_emulator.Engine.Observe.{lookup}
use yachtsense_link_emulator.Telemetry.Sections.{UciSection, uci_sections, uv}
use yachtsense_link_emulator.Telemetry.Json.{
  TextEnv, Json, Members, value_at, obj, list, text_of, first,
}
use yachtsense_link_emulator.Telemetry.Devices.{
  DeviceView, Addresses, Merge, places, change_at, fill, place_of, or_place, is_mac, add_at,
  add_device, words_from_spaces, known_device, add_lease, add_leases, comma_to_space, head_or_empty,
  add_host, add_hosts, is_unicast_mac, has_flag, on_vpn, bridge_device, add_bridge_at, add_entry,
  add_entries, device_before, insert_device, sort_devices, merged, merge_known_devices,
}
use yachtsense_link_emulator.Telemetry.Devices.Kept.{
  IsSame, Extends, Extends-refl, Extends-trans, Extends-append, Extends-change_at, fill-IsSame,
  on_vpn-IsSame, length-change_at, Grows,
}

Grows-refl : (s : Merge) → Grows s s
Grows-refl s = record { extends = Extends-refl s.devices; bounded = inr refl }

Grows-trans : (s t u : Merge) → Grows s t → Grows t u → Grows s u
Grows-trans s t u h k = record {
  extends = Extends-trans s.devices t.devices u.devices h.extends k.extends;
  bounded = by_bound h.bounded k.bounded;
}
  where
    by_bound :
        (length t.devices ≤ 256) ⊎ (length t.devices ≡ length s.devices)
        → (length u.devices ≤ 256) ⊎ (length u.devices ≡ length t.devices)
        → (length u.devices ≤ 256) ⊎ (length u.devices ≡ length s.devices)
    by_bound x (inl few) = inl few
    by_bound (inl few) (inr same) = inl (ground (arith, few, same))
    by_bound (inr same) (inr same') = inr (same' ∙ same)

if-Grows :
    (s : Merge) (b : Bool) (x y : Merge) → Grows s x → Grows s y → Grows s (if b then x else y)
if-Grows s true x y h k = h
if-Grows s false x y h k = k

change_at-Grows :
    (i : ℕ) (f : DeviceView → DeviceView) (s : Merge)
    → ((d : DeviceView) → IsSame d (f d))
    → Grows s (record s { devices = change_at i f s.devices })
change_at-Grows i f s h = record {
  extends = Extends-change_at i f s.devices h;
  bounded = inr (length-change_at i f s.devices);
}

add_at-Grows : (o : Option ℕ) (d : DeviceView) (s : Merge) → Grows s (add_at o d s)
add_at-Grows (some i) d s = change_at-Grows i (fill d) s (fill-IsSame d)
add_at-Grows none d s = elim (Bool-cases (leb 256 (length s.devices))) [
  | inl full ↦ rw full (Grows-refl s)
  | inr room ↦ rw room (record {
    extends = Extends-append s.devices (d ∷ []);
    bounded = inl (ground (arith, room, length-append s.devices (d ∷ [])));
  })
]

add_device-Grows :
    (env : TextEnv) (net : Addresses) (d : DeviceView) (s : Merge)
    → Grows s (add_device env net d s)
unfolding add_device
add_device-Grows env net d s =
    let low = record d { mac = to_lower env.unicode_lower d.mac } in
    if-Grows s (not (is_mac (net.parse_mac low.mac)) && not (net.is_ip low.device_ip)) _ _
      (Grows-refl s)
      (add_at-Grows (or_place (place_of low.mac s.by_mac) (place_of low.device_ip s.by_ip)) low s)

add_lease-Grows :
    (env : TextEnv) (net : Addresses) (w : List Bytes) (s : Merge) → Grows s (add_lease env net w s)
add_lease-Grows env net (_ ∷ mac ∷ ip ∷ name ∷ _) s =
    if-Grows s (net.is_ip ip) _ _
      (add_device-Grows env net
        (known_device (text_of env (if equal name (codes "*") then [] else name)) mac ip) s)
      (Grows-refl s)
add_lease-Grows env net [] s = Grows-refl s
add_lease-Grows env net (_ ∷ []) s = Grows-refl s
add_lease-Grows env net (_ ∷ _ ∷ []) s = Grows-refl s
add_lease-Grows env net (_ ∷ _ ∷ _ ∷ []) s = Grows-refl s

add_leases-Grows :
    (env : TextEnv) (net : Addresses) (lines : List Bytes) (s : Merge)
    → Grows s (add_leases env net lines s)
unfolding add_leases
add_leases-Grows env net [] s = Grows-refl s
add_leases-Grows env net (line ∷ lines) s =
    let t = add_lease env net (words_from_spaces [] 0 line) s in
    Grows-trans s t (add_leases env net lines t)
      (add_lease-Grows env net (words_from_spaces [] 0 line) s) (add_leases-Grows env net lines t)

add_host-Grows :
    (env : TextEnv) (net : Addresses) (name : Bytes) (ips macs : List Bytes) (s : Merge)
    → Grows s (add_host env net name ips macs s)
add_host-Grows env net name [] macs s = Grows-refl s
add_host-Grows env net name (ip ∷ _) macs s =
    add_device-Grows env net (known_device (text_of env name) (head_or_empty macs) ip) s

add_hosts-Grows :
    (env : TextEnv) (net : Addresses) (hs : List UciSection) (s : Merge)
    → Grows s (add_hosts env net hs s)
unfolding add_hosts
add_hosts-Grows env net [] s = Grows-refl s
add_hosts-Grows env net (h ∷ hs) s =
    let ips = words_from_spaces [] 0 (uv h (codes "ip")) in
    let macs = words_from_spaces [] 0 (map comma_to_space (uv h (codes "mac"))) in
    let t =
      if not (equal h.typ (codes "host"))
      then s
      else add_host env net (uv h (codes "name")) ips macs s in
    Grows-trans s t (add_hosts env net hs t)
      (if-Grows s (not (equal h.typ (codes "host"))) _ _ (Grows-refl s)
        (add_host-Grows env net (uv h (codes "name")) ips macs s))
      (add_hosts-Grows env net hs t)

add_bridge_at-Grows :
    (env : TextEnv) (net : Addresses) (mac dev : Bytes) (o : Option ℕ) (s : Merge)
    → Grows s (add_bridge_at env net mac dev o s)
add_bridge_at-Grows env net mac dev (some i) s =
    if-Grows s (has_prefix dev (codes "vxlan")) _ _ (change_at-Grows i on_vpn s on_vpn-IsSame)
      (Grows-refl s)
add_bridge_at-Grows env net mac dev none s = add_device-Grows env net (bridge_device mac dev) s

add_entry-Grows :
    (env : TextEnv) (net : Addresses) (is_local : Bytes → Bool) (f : Members) (s : Merge)
    → Grows s (add_entry env net is_local f s)
unfolding add_entry
add_entry-Grows env net is_local f s =
    let dev = first env f (codes "dev" ∷ []) in
    let mac = to_lower env.unicode_lower (first env f (codes "mac" ∷ [])) in
    if-Grows s (not (is_local (first env f (codes "master" ∷ []))) && not (is_local dev)) _ _
      (Grows-refl s)
      (if-Grows s (not (is_unicast_mac (net.parse_mac mac))) _ _ (Grows-refl s) (
        if-Grows s
          (has_flag env (list (value_at (codes "flags") f))
            || equal (map lower_byte (first env f (codes "state" ∷ []))) (codes "permanent"))
          _ _ (Grows-refl s) (add_bridge_at-Grows env net mac dev (lookup mac s.by_mac) s)))

add_entries-Grows :
    (env : TextEnv) (net : Addresses) (is_local : Bytes → Bool) (vs : List Json) (s : Merge)
    → Grows s (add_entries env net is_local vs s)
unfolding add_entries
add_entries-Grows env net is_local [] s = Grows-refl s
add_entries-Grows env net is_local (v ∷ vs) s =
    let t = add_entry env net is_local (obj v) s in
    Grows-trans s t (add_entries env net is_local vs t) (add_entry-Grows env net is_local (obj v) s)
      (add_entries-Grows env net is_local vs t)

insert_device-perm : (d : DeviceView) (es : List DeviceView) → Perm (insert_device d es) (d ∷ es)
unfolding insert_device
insert_device-perm d [] = Perm.rfl
insert_device-perm d (e ∷ es) = elim (Bool-cases (device_before e d)) [
  | inl later ↦ rw later (Perm.trans (Perm.cons e (insert_device-perm d es)) (Perm.swap d e es))
  | inr here ↦ rw here Perm.rfl
]

sort_devices-perm : (ds : List DeviceView) → Perm (sort_devices ds) ds
unfolding sort_devices
sort_devices-perm [] = Perm.rfl
sort_devices-perm (d ∷ ds) =
    Perm.trans (insert_device-perm d (sort_devices ds)) (Perm.cons d (sort_devices-perm ds))

-- From at most 256 devices the merge makes a list of at most 256, which holds, in some order, every
-- device that was there, its hardware address, interface and state unchanged and its name and address
-- filled in only where they were empty, and perhaps others.
pub merge_known_devices-Extends :
    (env : TextEnv) (net : Addresses) (devices : List DeviceView) (dhcp leases : Bytes) (fdb : Json)
    (is_local : Bytes → Bool)
    → length devices ≤ 256
    → let after = merged env net devices dhcp leases fdb is_local in
      Perm (merge_known_devices env net devices dhcp leases fdb is_local) after.devices
      × Extends devices after.devices
      × (length after.devices ≤ 256)
unfolding merge_known_devices merged
merge_known_devices-Extends env net devices dhcp leases fdb is_local few =
    let start : Merge = record {
      devices = devices;
      by_mac = (places 0 devices ([], [])).0;
      by_ip = (places 0 devices ([], [])).1;
    } in
    let leased = add_leases env net (split b'\n' leases) start in
    let hosted = add_hosts env net (uci_sections dhcp) leased in
    let after = add_entries env net is_local (list fdb) hosted in
    let grows : Grows start after =
      Grows-trans start leased after (add_leases-Grows env net (split b'\n' leases) start) (
        Grows-trans leased hosted after (add_hosts-Grows env net (uci_sections dhcp) leased)
          (add_entries-Grows env net is_local (list fdb) hosted)) in
    (sort_devices-perm after.devices, grows.extends, bound grows.bounded)
  where
    bound : {n : ℕ} → (n ≤ 256) ⊎ (n ≡ length devices) → n ≤ 256
    bound (inl h) = h
    bound (inr e) = ground (arith, e, few)
