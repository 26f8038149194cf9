-- ===== src/Engine/Build.antt =====
-- `buildEngine`: one endpoint for each network, and what each announces.
pub mod Made
pub mod Named
pub mod Built
use yachtsense_link_emulator.Common.{
  ℕ, Bool, true, false, not, ◌&&◌, ◌||◌, List, [], ◌∷◌, ◌++◌, Option, none, some, if◌then◌else◌,
  Result, ok, err,
}
use yachtsense_link_emulator.Common.Bytes.{Bytes, codes, equal}
use yachtsense_link_emulator.Dns.Types.{Env, DnsError, DnsResult, http_service}
use yachtsense_link_emulator.Dns.Name.{normalize_dns_name}
use yachtsense_link_emulator.Dns.Message.Build.{Configuration, to4, build_announcement}
use yachtsense_link_emulator.Dns.Filter.{RelayReason, determine_relay_mode}
use yachtsense_link_emulator.Config.Text.{Ipv4}
use yachtsense_link_emulator.Config.Interfaces.{dotted, has_text}
use yachtsense_link_emulator.Status.Engine.{is_distinct}
use yachtsense_link_emulator.Daemon.Address.{first_interface_ipv4, has_ip_now}
use yachtsense_link_emulator.Engine.Announce.{close}
use yachtsense_link_emulator.Engine.Loop.{Endpoint, Engine, Shared, Sent, Outside, new_shared}

-- An interface: its addresses, if they can be read, and the text of its hardware address
pub record NetInterface : Type 0 where
  pub addresses : Option (List Bytes)
  pub mac : Bytes

-- What the system knows and allows: the interfaces by name, and whether `openMDNSSocket` succeeds
pub record Net : Type 0 where
  pub interface_by_name : Bytes → Option NetInterface
  pub opens : Bytes → Ipv4 → Bool

pub data BuildError : Type 0 where
  no_such_interface no_ipv4 absent_ip socket_error : BuildError
  announcement_error : DnsError → BuildError

-- An address of four bytes; another one is refused below as absent, by the source as a socket's.
abbrev pub four_bytes : Option Bytes → Option Ipv4
four_bytes (some (a ∷ b ∷ c ∷ d ∷ [])) = some (a, b, c, d)
four_bytes _ = none

abbrev pub bytes_of : Ipv4 → Bytes
bytes_of (a, b, c, d) = a ∷ b ∷ c ∷ d ∷ []

abbrev pub first_of : Option (List Bytes) → Option Ipv4
first_of none = none
first_of (some addrs) = first_interface_ipv4 addrs

-- The address to use on an interface
abbrev pub endpoint_ip : Configuration → Bytes → NetInterface → Result BuildError Ipv4
endpoint_ip c n i =
    let use_ip = λ (missing : BuildError) (o : Option Ipv4).
      elim o as (λ x. Result BuildError Ipv4) [
        | none ↦ err missing
        | some ip ↦ if has_ip_now i.addresses (some ip) then ok ip else err absent_ip
      ] in
    if equal n c.axiom_interface
    then use_ip absent_ip (four_bytes (to4 c.axiom_ip))
    else use_ip no_ipv4 (first_of i.addresses)

abbrev pub with_socket :
    Net → Bytes → NetInterface → Result BuildError Ipv4 → Result BuildError (Ipv4 × NetInterface)
with_socket net n i (ok ip) = if net.opens n ip then ok (ip, i) else err socket_error
with_socket net n i (err e) = err e

abbrev pub open_on :
    Net → Configuration → Bytes → Option NetInterface → Result BuildError (Ipv4 × NetInterface)
open_on net c n none = err no_such_interface
open_on net c n (some i) = with_socket net n i (endpoint_ip c n i)

-- One turn of the loop up to the endpoint
unfoldable pub open_endpoint : Net → Configuration → Bytes → Result BuildError (Ipv4 × NetInterface)
unfolding first_interface_ipv4 to4 equal
open_endpoint net c n = open_on net c n (net.interface_by_name n)

-- With a reflector beside it, only the endpoint on the MFD's network publishes.
abbrev pub publishes_on : Configuration → Bytes → Bool
publishes_on c n = c.mdns_enabled && (equal n c.axiom_interface || not c.existing_reflector)

abbrev pub endpoint_with : Bytes → Bool → Bytes → Bytes → Endpoint
endpoint_with n publish announcement goodbye = record {
  name = n;
  publish = publish;
  announcement = announcement;
  goodbye = goodbye;
}

-- The endpoint as it is left where its announcement, or then its goodbye, fails
abbrev pub announced : Bytes → DnsResult Bytes → DnsResult Bytes → Endpoint × Option BuildError
announced n (ok a) (ok b) = (endpoint_with n true a b, none)
announced n (ok a) (err e) = (endpoint_with n true a [], some (announcement_error e))
announced n (err e) b = (endpoint_with n true [] [], some (announcement_error e))

abbrev pub make_endpoint :
    Env → Configuration → Bytes → Ipv4 × NetInterface → Endpoint × Option BuildError
make_endpoint env c n (ip, i) =
    if publishes_on c n
    then announced n (build_announcement env c i.mac (bytes_of ip) c.ttl)
        (build_announcement env c i.mac (bytes_of ip) 0)
    else (endpoint_with n false [] [], none)

-- The endpoints, their addresses, and why the loop stopped, if it did
pub record Endpoints : Type 0 where
  pub made : List Endpoint
  pub ips : List Bytes
  pub failure : Option BuildError

abbrev pub add_endpoint : Bytes → Endpoint × Option BuildError → Endpoints → Endpoints
add_endpoint ip (ep, some e) rest = record { made = ep ∷ []; ips = ip ∷ []; failure = some e }
add_endpoint ip (ep, none) rest = record {
  made = ep ∷ rest.made;
  ips = ip ∷ rest.ips;
  failure = rest.failure;
}

abbrev pub add_opened :
    Env → Configuration → Bytes → Result BuildError (Ipv4 × NetInterface) → Endpoints → Endpoints
add_opened env c n (err e) rest = record { made = []; ips = []; failure = some e }
add_opened env c n (ok (ip, i)) rest = add_endpoint (dotted ip) (make_endpoint env c n (ip, i)) rest

-- The loop over the names
unfoldable pub make_endpoints : Env → Net → Configuration → List Bytes → List Bytes → Endpoints
unfolding has_text open_endpoint
make_endpoints env net c seen [] = record { made = []; ips = []; failure = none }
make_endpoints env net c seen (n ∷ ns) =
    let without = make_endpoints env net c seen ns in
    let rest = make_endpoints env net c (n ∷ seen) ns in
    if has_text seen n then without else add_opened env c n (open_endpoint net c n) rest

abbrev pub no_endpoint : Endpoint
no_endpoint = endpoint_with [] false [] []

-- `g.axiom`
unfoldable pub axiom_among : Bytes → List Endpoint → Endpoint
unfolding equal
axiom_among n [] = no_endpoint
axiom_among n (ep ∷ eps) = if equal ep.name n then ep else axiom_among n eps

abbrev pub engine_from : Env → Configuration → Endpoints → Engine
engine_from env c made = record {
  endpoints = made.made;
  axiom_endpoint = axiom_among c.axiom_interface made.made;
  relay = (determine_relay_mode c (is_distinct c.axiom_interface c.remote_interfaces)).0;
  local_ips = made.ips;
  host = normalize_dns_name env (c.host_label ++ codes ".local");
  own_instance = normalize_dns_name env (c.instance_name ++ (b'.' ∷ http_service));
}

-- What the engine reports of itself
abbrev pub reported : Configuration → Shared
reported c =
    new_shared c.mdns_enabled
      (determine_relay_mode c (is_distinct c.axiom_interface c.remote_interfaces))

abbrev pub build_end :
    Env
    → Outside
    → Configuration
    → Endpoints
    → Option BuildError
    → Result (BuildError × List Sent) (Engine × Shared)
build_end env out c made none = ok (engine_from env c made, reported c)
build_end env out c made (some e) = err (e, close out made.made)

-- `buildEngine`; where it fails, `close` takes back what was made, with its goodbyes.
unfoldable pub build_engine :
    Env → Net → Outside → Configuration → Result (BuildError × List Sent) (Engine × Shared)
unfolding make_endpoints axiom_among close
build_engine env net out c =
    let made = make_endpoints env net c [] (c.axiom_interface ∷ c.remote_interfaces) in
    build_end env out c made made.failure
