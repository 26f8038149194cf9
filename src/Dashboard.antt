-- ===== src/Dashboard.antt =====
-- cmd/yachtsense-link-emulator/dashboard.go: who may read the dashboard, and what a request gets.
pub mod Access
use yachtsense_link_emulator.Common.{
  ℕ, ◌+◌, ◌*◌, ◌-◌, ◌/◌, ◌^◌, Bool, true, false, not, ◌&&◌, ◌||◌, List, [], ◌∷◌, ◌++◌, Option, none,
  some, ltb, leb, ◌==◌, if◌then◌else◌,
}
use yachtsense_link_emulator.Common.Bytes.{Bytes, codes, equal, has_suffix}
use yachtsense_link_emulator.Dns.Cache.{second}
use yachtsense_link_emulator.Config.Text.{Ipv4, parse_prefix4}
use yachtsense_link_emulator.Config.Settings.{Settings}
use yachtsense_link_emulator.Config.Interfaces.{Resolved}

-- `netip.Prefix`. The networks of validated settings, and of a resolved interface, are IPv4.
abbrev pub Prefix : Type 0
Prefix = Ipv4 × ℕ

abbrev pub value_of : Ipv4 → ℕ
value_of (a, b, c, d) = ((a * 256 + b) * 256 + c) * 256 + d

-- `p.Contains(a)`, which reads the first bits of both alone, so that `Masked` makes no difference
unfoldable pub contains_ip : Prefix → Ipv4 → Bool
contains_ip (ip, bits) a = value_of ip / 2 ^ (32 - bits) == value_of a / 2 ^ (32 - bits)

abbrev pub loopback : Prefix
loopback = ((127, 0, 0, 0), 8)

abbrev pub is_separator : ℕ → Bool
is_separator c = c == b',' || (c == b' ' || (c == 9 || c == 10))

-- `strings.FieldsFunc`; `word` is read already.
unfoldable pub cidr_fields : Bytes → Bytes → List Bytes
cidr_fields [] [] = []
cidr_fields (w ∷ word) [] = (w ∷ word) ∷ []
cidr_fields [] (c ∷ s) =
    let skip = cidr_fields [] s in
    let on = cidr_fields (c ∷ []) s in if is_separator c then skip else on
cidr_fields (w ∷ word) (c ∷ s) =
    let next = cidr_fields [] s in
    let on = cidr_fields ((w ∷ word) ++ c ∷ []) s in
    if is_separator c then (w ∷ word) ∷ next else on

-- The prefixes among the texts
unfoldable pub prefixes_of : List Bytes → List Prefix
prefixes_of [] = []
prefixes_of (s ∷ texts) =
    let rest = prefixes_of texts in elim (parse_prefix4 s) [ none ↦ rest | some p ↦ p ∷ rest ]

-- The addresses of the app interfaces, where `addresses_of` gives them
unfoldable pub app_prefixes : (Bytes → Option (List Bytes)) → List Bytes → List Prefix
unfolding prefixes_of
app_prefixes addresses_of [] = []
app_prefixes addresses_of (name ∷ names) =
    let rest = app_prefixes addresses_of names in
    elim (addresses_of name) [ none ↦ rest | some addrs ↦ prefixes_of addrs ++ rest ]

-- `dashboardNetworks`
unfoldable pub dashboard_networks :
    (Bytes → Option (List Bytes)) → Settings → Resolved → List Prefix
unfolding prefixes_of app_prefixes cidr_fields
dashboard_networks addresses_of c r =
    loopback ∷ prefixes_of (r.cidr ∷ [])
    ++ (app_prefixes addresses_of r.apps ++ prefixes_of (cidr_fields [] c.dashboard_cidrs))

-- The address of the client as the Go library reads it from host and port: nothing where it cannot,
-- and nothing inside for an IPv6 address.
abbrev pub Remote : Type 0
Remote = Option (Option Ipv4)

unfoldable pub any_contains : List Prefix → Ipv4 → Bool
unfolding contains_ip
any_contains [] a = false
any_contains (p ∷ ps) a = contains_ip p a || any_contains ps a

-- `dashboardAllowed`
unfoldable pub dashboard_allowed : Remote → Bool → List Prefix → Bool
unfolding any_contains
dashboard_allowed none all_clients prefixes = false
dashboard_allowed (some none) all_clients prefixes = all_clients
dashboard_allowed (some (some a)) all_clients prefixes = all_clients || any_contains prefixes a

pub record Request : Type 0 where
  pub remote : Remote
  pub method : Bytes
  pub path : Bytes

-- What the status page says of the emulator; the texts of the state's fields are passed on.
pub record EmulatorStatus : Type 0 where
  pub running : Bool
  pub mdns : Bool
  pub http : Bool
  pub relay : Bool
  pub axiom_shown : Bool
  pub app_shown : Bool

pub record StatusReply : Type 0 where
  pub ready : Bool
  pub stale : Bool
  pub emulator : EmulatorStatus

-- A response: an error, a file with its type and, if it has one, its body, or the status
pub data Response : Type 0 where
  forbidden read_only not_found : Response
  file : Bytes → Bytes → Option Bytes → Response
  status : Option StatusReply → Response

-- The parts of the runtime state and of the cache that the handler reads; times in nanoseconds
pub record Snapshot : Type 0 where
  pub process : ℕ
  pub updated : ℕ
  pub mdns_active : Bool
  pub http_active : Bool
  pub relay_active : Bool
  pub axiom_expires : ℕ
  pub app_expires : ℕ
  pub router_ready : Bool
  pub observed : ℕ

-- The reply's values at a time. `int64` differences of times: one that lies ahead gives a negative one.
unfoldable pub status_reply : ℕ → Snapshot → StatusReply
status_reply now s =
    let running = ltb 0 s.process && leb now (s.updated + 20 * second) in
    record {
      ready = s.router_ready;
      stale = not s.router_ready || ltb (s.observed + 45 * second) now;
      emulator = record {
        running = running;
        mdns = running && s.mdns_active;
        http = running && s.http_active;
        relay = running && s.relay_active;
        axiom_shown = ltb now s.axiom_expires;
        app_shown = ltb now s.app_expires;
      };
    }

-- `assets`
abbrev pub asset : Bytes → Option Bytes
asset path =
    if equal path (codes "/") || equal path (codes "/index.html")
    then some (codes "index.html")
    else if equal path (codes "/status.css")
    then some (codes "status.css")
    else if equal path (codes "/status.js")
    then some (codes "status.js")
    else none

abbrev pub content_type : Bytes → Bytes
content_type name =
    if has_suffix name (codes ".css")
    then codes "text/css; charset=utf-8"
    else if has_suffix name (codes ".js")
    then codes "text/javascript; charset=utf-8"
    else codes "text/html; charset=utf-8"

abbrev pub body_of {ℓ} : {A : Type ℓ} → Bytes → A → Option A
body_of method a = if equal method (codes "HEAD") then none else some a

abbrev pub served : Bytes → Bytes → Option Bytes → Response
served method name none = not_found
served method name (some body) = file name (content_type name) (body_of method body)

abbrev pub page : (Bytes → Option Bytes) → ℕ → Snapshot → Request → Option Bytes → Response
page files now s q (some name) = served q.method name (files name)
page files now s q none =
    if not (equal q.path (codes "/api/status"))
    then not_found
    else status (body_of q.method (status_reply now s))

-- `dashboardHandler`; `files` are the embedded ones.
unfoldable pub handle :
    (Bytes → Option Bytes) → List Prefix → Settings → ℕ → Snapshot → Request → Response
unfolding dashboard_allowed equal has_suffix status_reply
handle files prefixes c now s q =
    if not (dashboard_allowed q.remote c.dashboard_allow_all prefixes)
    then forbidden
    else if not (equal q.method (codes "GET")) && not (equal q.method (codes "HEAD"))
    then read_only
    else page files now s q (asset q.path)
