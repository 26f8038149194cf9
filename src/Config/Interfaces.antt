-- ===== src/Config/Interfaces.antt =====
-- `InterfaceInfo`, `interfaceSnapshot`, `hasIP` and `resolve`.
pub mod Resolve
use yachtsense_link_emulator.Common.{
  ℕ, Bool, true, false, not, ◌&&◌, ◌||◌, List, [], ◌∷◌, ◌++◌, Option, none, some, leb, ltb, ◌==◌,
  if◌then◌else◌, length,
}
use yachtsense_link_emulator.Common.Bytes.{Bytes, codes, equal, itoa, split}
use yachtsense_link_emulator.Common.Int.{ℤ, pos, negsuc}
use yachtsense_link_emulator.Config.Text.{Ipv4, parse_prefix4, safe_interface}
use yachtsense_link_emulator.Config.Settings.{Settings}

pub record InterfaceInfo : Type 0 where
  pub name : Bytes
  pub addresses : List Bytes
  pub mac : Bytes
  pub up : Bool
  pub default_route : Bool
  pub read_error : Bytes

-- An interface as the system lists it; `addrs` is the error's text where `Addrs` fails.
pub record SystemInterface : Type 0 where
  pub sys_name : Bytes
  pub loopback : Bool
  pub sys_up : Bool
  pub hardware : Bytes
  pub addrs : List Bytes
  pub addrs_error : Bytes

-- The order of strings
unfoldable pub text_before : Bytes → Bytes → Bool
text_before [] [] = false
text_before [] (y ∷ b) = true
text_before (x ∷ a) [] = false
text_before (x ∷ a) (y ∷ b) = ltb x y || (x == y && text_before a b)

unfoldable pub insert_text : Bytes → List Bytes → List Bytes
unfolding text_before
insert_text s [] = s ∷ []
insert_text s (t ∷ ts) = if text_before t s then t ∷ insert_text s ts else s ∷ t ∷ ts

-- `sort.Strings`
unfoldable pub sort_texts : List Bytes → List Bytes
unfolding insert_text
sort_texts [] = []
sort_texts (s ∷ ss) = insert_text s (sort_texts ss)

-- The addresses that are IPv4
unfoldable pub keep_ipv4 : List Bytes → List Bytes
keep_ipv4 [] = []
keep_ipv4 (a ∷ rest_addrs) =
    let rest = keep_ipv4 rest_addrs in elim (parse_prefix4 a) [ none ↦ rest | some _ ↦ a ∷ rest ]

-- The fields of a line of /proc/net/route, which separates them by spaces and tabs
abbrev blank : ℕ → Bool
blank c = c == b' ' || leb 9 c && leb c 13

unfoldable pub fields : Bytes → Bytes → List Bytes
fields [] [] = []
fields (w ∷ word) [] = (w ∷ word) ∷ []
fields [] (c ∷ s) =
    let apart = fields [] s in let within = fields (c ∷ []) s in if blank c then apart else within
fields (w ∷ word) (c ∷ s) =
    let apart = fields [] s in
    let within = fields (w ∷ word ++ c ∷ []) s in if blank c then (w ∷ word) ∷ apart else within

abbrev route_of : List Bytes → Option Bytes
route_of (n ∷ destination ∷ gateway ∷ flags ∷ rest) =
    if equal destination (codes "00000000") then some n else none
route_of _ = none

unfoldable pub default_routes : List Bytes → List Bytes
unfolding fields equal
default_routes [] = []
default_routes (l ∷ ls) =
    let rest = default_routes ls in
    elim (route_of (fields [] l)) [ none ↦ rest | some n ↦ n ∷ rest ]

unfoldable pub has_text : List Bytes → Bytes → Bool
unfolding equal
has_text [] s = false
has_text (x ∷ xs) s = equal x s || has_text xs s

unfoldable pub insert_interface : InterfaceInfo → List InterfaceInfo → List InterfaceInfo
unfolding text_before
insert_interface i [] = i ∷ []
insert_interface i (j ∷ js) =
    if text_before j.name i.name then j ∷ insert_interface i js else i ∷ j ∷ js

abbrev observed : List Bytes → SystemInterface → InterfaceInfo
observed defaults i = record {
  name = i.sys_name;
  addresses = if length i.addrs_error == 0 then sort_texts (keep_ipv4 i.addrs) else [];
  mac = i.hardware;
  up = i.sys_up;
  default_route = has_text defaults i.sys_name;
  read_error = i.addrs_error;
}

-- `interfaceSnapshot`, sorted by name; the names of a system are distinct, so that every sort gives
-- the same list
unfoldable pub snapshot_of : List Bytes → List SystemInterface → List InterfaceInfo
unfolding insert_interface safe_interface
snapshot_of defaults [] = []
snapshot_of defaults (i ∷ is) =
    let rest = snapshot_of defaults is in
    if i.loopback || not (safe_interface i.sys_name)
    then rest
    else insert_interface (observed defaults i) rest

unfoldable pub interface_snapshot : List SystemInterface → Bytes → List InterfaceInfo
unfolding snapshot_of default_routes
interface_snapshot system routes = snapshot_of (default_routes (split b'\n' routes)) system

-- `p.Addr().String()` of an IPv4 address
unfoldable pub dotted : Ipv4 → Bytes
unfolding itoa
dotted (a, b, c, d) = itoa a ++ b'.' ∷ itoa b ++ b'.' ∷ itoa c ++ b'.' ∷ itoa d

-- `p.Addr().IsPrivate()` of an IPv4 address
abbrev pub is_private : Ipv4 → Bool
is_private (a, b, c, d) = a == 10 || (a == 172 && (leb 16 b && leb b 31) || a == 192 && b == 168)

-- `hasIP` over the addresses of an interface, which are IPv4 prefixes
unfoldable pub has_ip : List Bytes → Bytes → Bytes
unfolding dotted equal
has_ip [] ip = []
has_ip (cidr ∷ rest) ip = elim (parse_prefix4 cidr) [
  | none ↦ has_ip rest ip
  | some (address, bits) ↦ if equal (dotted address) ip then cidr else has_ip rest ip
]

unfoldable pub any_private : List Bytes → Bool
any_private [] = false
any_private (cidr ∷ rest) = elim (parse_prefix4 cidr) [
  | none ↦ any_private rest
  | some (address, bits) ↦ if is_private address then true else any_private rest
]

pub data RaynetReason : Type 0 where
  no_reason existing_address manual_raynet address_management : RaynetReason

pub data AppReason : Type 0 where
  no_app_reason manual_apps lan_bridge only_network : AppReason

-- The errors of `resolve`, each with the texts that its message names
pub data ResolveError : Type 0 where
  address_missing address_repeated networks_ambiguous choose_network : ResolveError
  raynet_unavailable raynet_no_address raynet_down app_unavailable app_no_address :
      Bytes → ResolveError

-- `Resolved`; a field `Error` is the error that `resolve` returns beside it.
pub record Resolved : Type 0 where
  pub raynet : Bytes
  pub cidr : Bytes
  pub apps : List Bytes
  pub failed : Option ResolveError
  pub raynet_reason : RaynetReason
  pub app_reason : AppReason
