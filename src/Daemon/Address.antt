-- ===== src/Daemon/Address.antt =====
-- `prepareAddress`: the address that the package itself may add to the interface, and the marker file
-- that says which address it added; and the tests on an interface's addresses.
pub mod Owned
use yachtsense_link_emulator.Common.{
  ℕ, Bool, true, false, not, ◌&&◌, ◌||◌, List, [], ◌∷◌, ◌++◌, Option, none, some, ◌==◌,
  if◌then◌else◌, Result, ok, err,
}
use yachtsense_link_emulator.Common.Bytes.{Bytes, equal}
use yachtsense_link_emulator.Config.Text.{Ipv4, parse_ipv4, parse_prefix4}
use yachtsense_link_emulator.Config.Settings.{Settings}
use yachtsense_link_emulator.Config.Interfaces.{Resolved}

pub record ManagedAddress : Type 0 where
  pub interface : Bytes
  pub cidr : Bytes

-- `ip addr add` and `ip addr del`
pub data Command : Type 0 where
  add_address del_address : ManagedAddress → Command

-- The marker file, if it is there, and the commands that were run
pub record World : Type 0 where
  pub marker : Option Bytes
  pub commands : List Command

-- What the system does: whether a command succeeds, the JSON of a marker and what a decoder leaves
-- (with whether it succeeds), whether the file can be written and removed, and the addresses of an
-- interface, if it is there (none inside where they cannot be read)
pub record Router : Type 0 where
  pub runs : Command → Bool
  pub encode : ManagedAddress → Bytes
  pub decode : Bytes → ManagedAddress × Bool
  pub can_write : Bool
  pub can_remove : Bool
  pub addresses_of : Bytes → Option (Option (List Bytes))

pub data AddressError : Type 0 where
  cannot_remove no_interface cannot_add cannot_mark : AddressError

-- The closure that `prepareAddress` returns
pub data Cleanup : Type 0 where
  nothing : Cleanup
  release : ManagedAddress → Cleanup

abbrev pub no_address : ManagedAddress
no_address = record { interface = []; cidr = [] }

abbrev pub same_address : ManagedAddress → ManagedAddress → Bool
same_address a b = equal a.interface b.interface && equal a.cidr b.cidr

abbrev pub same_ip : Ipv4 → Ipv4 → Bool
same_ip (a, b, c, d) (e, f, g, h) = a == e && (b == f && (c == g && d == h))

-- `interfaceHasIP`
unfoldable pub interface_has_ip : List Bytes → Option Ipv4 → Bool
interface_has_ip [] ip = false
interface_has_ip (a ∷ rest_addrs) ip =
    let rest = interface_has_ip rest_addrs ip in
    elim (parse_prefix4 a) [
      | none ↦ rest
      | some found ↦ elim ip [
        | none ↦ rest
        | some wanted ↦ if same_ip found.0 wanted then true else rest
      ]
    ]

-- `firstInterfaceIPv4`, with none for its error
unfoldable pub first_interface_ipv4 : List Bytes → Option Ipv4
first_interface_ipv4 [] = none
first_interface_ipv4 (a ∷ rest_addrs) =
    let rest = first_interface_ipv4 rest_addrs in
    elim (parse_prefix4 a) [
      | none ↦ rest
      | some found ↦ if found.0.0 == 127 then rest else some found.0
    ]

abbrev pub has_ip_now : Option (List Bytes) → Option Ipv4 → Bool
has_ip_now none ip = false
has_ip_now (some addrs) ip = interface_has_ip addrs ip

-- What the marker says that the package owns
abbrev pub owned_by : Router → Option Bytes → ManagedAddress
owned_by router none = no_address
owned_by router (some data_read) = (router.decode data_read).0

abbrev pub run : Command → World → World
run c w = record w { commands = w.commands ++ c ∷ [] }

-- `os.Remove(path)`, whose error is dropped
abbrev pub remove_marker : Router → World → World
remove_marker router w = if router.can_remove then record w { marker = none } else w

abbrev pub wanted : Resolved → ManagedAddress
wanted r = record { interface = r.raynet; cidr = r.cidr }

-- An address that the package owned elsewhere is taken away.
unfoldable pub release_previous :
    Router → Resolved → ManagedAddress → World → World × Result AddressError ManagedAddress
unfolding equal
release_previous router r owned w =
    if not (equal owned.interface []) && not (same_address owned (wanted r))
    then (if router.runs (del_address owned)
        then (remove_marker router (run (del_address owned) w), ok no_address)
        else (run (del_address owned) w, err cannot_remove))
    else (w, ok owned)

-- The address is added where it is missing, and the marker written; where that fails it is taken away.
unfoldable pub add_wanted : Router → Resolved → World → World × Result AddressError ManagedAddress
add_wanted router r w =
    let added = run (add_address (wanted r)) w in
    if router.runs (add_address (wanted r))
    then (if router.can_write
        then (record added { marker = some (router.encode (wanted r)) }, ok (wanted r))
        else (run (del_address (wanted r)) added, err cannot_mark))
    else (added, err cannot_add)

-- What is done for the interface, where it is there
abbrev pub ensure_on :
    Option (Option (List Bytes))
    → Router
    → Settings
    → Resolved
    → ManagedAddress
    → World
    → World × Result AddressError ManagedAddress
ensure_on none router c r owned w = (w, err no_interface)
ensure_on (some addrs) router c r owned w =
    if has_ip_now addrs (parse_ipv4 c.ip) then (w, ok owned) else add_wanted router r w

unfoldable pub ensure_present :
    Router
    → Settings
    → Resolved
    → ManagedAddress
    → World
    → World × Result AddressError ManagedAddress
unfolding add_wanted interface_has_ip
ensure_present router c r owned w = ensure_on (router.addresses_of r.raynet) router c r owned w

abbrev pub with_cleanup :
    World × Result AddressError ManagedAddress → World × Result AddressError Cleanup
with_cleanup (w, ok owned) = (w, ok (release owned))
with_cleanup (w, err e) = (w, err e)

abbrev pub ensure_after :
    Router
    → Settings
    → Resolved
    → World × Result AddressError ManagedAddress
    → World × Result AddressError ManagedAddress
ensure_after router c r (w, ok owned) = ensure_present router c r owned w
ensure_after router c r (w, err e) = (w, err e)

-- `prepareAddress`
unfoldable pub prepare_address :
    Router → Settings → Resolved → World → World × Result AddressError Cleanup
unfolding release_previous ensure_present
prepare_address router c r w =
    if not c.manage_ip
    then (remove_marker router w, ok nothing)
    else with_cleanup
        (ensure_after router c r (release_previous router r (owned_by router w.marker) w))

-- What a successful decoding of the marker gives
abbrev pub marked : Router → Option Bytes → Option ManagedAddress
marked router none = none
marked router (some data_read) =
    let (a, good) = router.decode data_read in if good then some a else none

abbrev pub is_marked : Option ManagedAddress → ManagedAddress → Bool
is_marked none owned = false
is_marked (some current) owned = same_address current owned

-- The closure, as it runs when the daemon stops
unfoldable pub clean_up : Router → Settings → Resolved → Cleanup → World → World
unfolding equal
clean_up router c r nothing w = w
clean_up router c r (release owned) w =
    if (c.remove_ip && same_address owned (wanted r)) && is_marked (marked router w.marker) owned
    then (if router.runs (del_address owned)
        then remove_marker router (run (del_address owned) w)
        else run (del_address owned) w)
    else w
