-- ===== src/Config/Settings.antt =====
-- `Settings`, `defaultSettings`, `settingsFrom` and `validateSettings`.
pub mod Checks
pub mod Valid
use yachtsense_link_emulator.Common.{
  ℕ, zero, suc, ◌+◌, Bool, true, false, ◌&&◌, ◌||◌, not, List, [], ◌∷◌, ◌++◌, Option, none, some,
  ltb, leb, ◌==◌, if◌then◌else◌, length, Result, ok, err, ◌>>=◌, ◌>>◌, refuse_first,
}
use yachtsense_link_emulator.Common.Bytes.{Bytes, codes, equal, contains_byte}
use yachtsense_link_emulator.Common.Int.{ℤ, pos, ltb_ℤ}
use yachtsense_link_emulator.Config.Words.{
  ConfigError, ConfigResult, dashboard_port_range, dashboard_list_long, dashboard_list_networks,
  raynet_mode_unknown, app_mode_unknown, discovery_mode_unknown, raynet_address, out_of_range,
  raynet_interface, too_many_apps, no_app, app_interface, serial_text, version_text,
  hostname_length, hostname_label, log_level_unknown, manage_ip_mode,
}
use yachtsense_link_emulator.Config.Text.{
  clean_serial, safe_interface, printable, as_bool, atoi, parse_ipv4, parse_prefix4, Ipv4,
  fields_from, is_alnum, all_bytes,
}
use yachtsense_link_emulator.Config.Uci.{Values, find_values, parse_uci}

pub record Settings : Type 0 where
  pub enabled : Bool
  pub mdns : Bool
  pub http : Bool
  pub raynet_mode : Bytes
  pub app_mode : Bytes
  pub axiom_interface : Bytes
  pub remote_interfaces : List Bytes
  pub discovery_mode : Bytes
  pub manage_ip : Bool
  pub ip : Bytes
  pub prefix_bits : ℤ
  pub remove_ip : Bool
  pub serial : Bytes
  pub version : Bytes
  pub hostname : Bytes
  pub instance_name : Bytes
  pub ttl : ℤ
  pub health_port : ℤ
  pub log_level : Bytes
  pub log_lines : ℤ
  pub dashboard : Bool
  pub dashboard_port : ℤ
  pub dashboard_allow_all : Bool
  pub dashboard_cidrs : Bytes

-- `defaultSettings`
abbrev pub default_settings : Settings
default_settings = record {
  enabled = false;
  mdns = true;
  http = true;
  raynet_mode = codes "auto";
  app_mode = codes "auto";
  axiom_interface = codes "br-lan";
  remote_interfaces = codes "br-lan" ∷ [];
  discovery_mode = codes "auto";
  manage_ip = false;
  ip = codes "198.18.0.1";
  prefix_bits = pos 21;
  remove_ip = false;
  serial = codes "AF002A4";
  version = codes "V142.242.530";
  hostname = codes "yachtsense-main";
  instance_name = codes "yachtsense-main Settings";
  ttl = pos 120;
  health_port = pos 7777;
  log_level = codes "info";
  log_lines = pos 40;
  dashboard = true;
  dashboard_port = pos 8088;
  dashboard_allow_all = true;
  dashboard_cidrs = codes "192.168.4.0/24";
}

-- Last of a list
abbrev last_value : List Bytes → Option Bytes
last_value [] = none
last_value (a ∷ []) = some a
last_value (a ∷ b ∷ l) = last_value (b ∷ l)

-- `get` of `settingsFrom`
unfoldable pub get_value : Values → Bytes → Option Bytes
get_value v k = elim (find_values k v) [ none ↦ none | some a ↦ last_value a ]

abbrev text_or : Option Bytes → Bytes → Bytes
text_or none d = d
text_or (some s) d = s

abbrev pub bool_or : (Bytes → Bytes) → Option Bytes → Bool → ConfigResult Bool
bool_or unicode_lower none d = ok d
bool_or unicode_lower (some s) d = as_bool unicode_lower s

abbrev pub int_or : Option Bytes → ℤ → ConfigResult ℤ
int_or none d = ok d
int_or (some s) d = atoi s

abbrev list_or : Option (List Bytes) → List Bytes → List Bytes
list_or none d = d
list_or (some a) d = a

-- A mode that an old configuration does not name is manual; an empty configuration keeps the default.
abbrev mode_or : Values → Bytes → Bytes → Bytes
mode_or v k d = elim (find_values k v) [
  | none ↦ if length v == 0 then d else codes "manual"
  | some _ ↦ text_or (get_value v k) d
]

-- The discovery mode, or what the older option `relay_mode` stands for
abbrev discovery_or : Values → Bytes → Bytes
discovery_or v d = elim (find_values (codes "discovery_mode") v) [
  | some _ ↦ text_or (get_value v (codes "discovery_mode")) d
  | none ↦
      if equal (text_or (get_value v (codes "relay_mode")) []) (codes "force")
      then codes "builtin"
      else if equal (text_or (get_value v (codes "relay_mode")) []) (codes "disabled")
      then codes "disabled"
      else d
]

-- The dashboard's networks are all IPv4 prefixes.
unfoldable pub all_prefixes : List Bytes → Bool
all_prefixes [] = true
all_prefixes (v ∷ vs) = elim (parse_prefix4 v) [ none ↦ false | some _ ↦ all_prefixes vs ]

-- A RayNet address: IPv4, and neither unspecified, loopback, multicast nor broadcast
unfoldable pub is_unicast : Option Ipv4 → Bool
is_unicast none = false
is_unicast (some (a, b, c, d)) =
    not (a == 0 && (b == 0 && (c == 0 && d == 0)))
    && (not (a == 127)
        && (not (leb 224 a && leb a 239) && not (a == 255 && (b == 255 && (c == 255 && d == 255)))))

unfoldable pub all_safe : List Bytes → Bool
all_safe [] = true
all_safe (n ∷ ns) = safe_interface n && all_safe ns

abbrev pub outside : ℤ → ℤ → ℤ → Bool
outside lo hi x = ltb_ℤ x lo || ltb_ℤ hi x

abbrev pub is_mode : Bytes → Bool
is_mode m = equal m (codes "auto") || equal m (codes "manual")

abbrev pub is_discovery_mode : Bytes → Bool
is_discovery_mode m =
    equal m (codes "auto")
    || (equal m (codes "builtin") || (equal m (codes "avahi") || equal m (codes "disabled")))

-- `strings.HasPrefix(s, "-")` and `strings.HasSuffix(s, "-")`
abbrev pub starts_with_dash : Bytes → Bool
starts_with_dash [] = false
starts_with_dash (c ∷ s) = c == b'-'

abbrev pub ends_with_dash : Bytes → Bool
ends_with_dash [] = false
ends_with_dash (c ∷ []) = c == b'-'
ends_with_dash (c ∷ d ∷ s) = ends_with_dash (d ∷ s)

abbrev pub is_host_byte : ℕ → Bool
is_host_byte c = is_alnum c || c == b'-'

-- `==` of two integers
abbrev pub equal_ℤ : ℤ → ℤ → Bool
equal_ℤ a b = not (ltb_ℤ a b) && not (ltb_ℤ b a)

-- The conditions of `validateSettings`, in its order, each with the error that it returns
abbrev pub settings_checks : Settings → List (Bool × ConfigError)
settings_checks c =
    (
      outside (pos 1024) (pos 65535) c.dashboard_port || equal_ℤ c.dashboard_port c.health_port,
      dashboard_port_range,
    )
    ∷ (ltb 1024 (length c.dashboard_cidrs), dashboard_list_long)
    ∷ (not (all_prefixes (fields_from [] 0 c.dashboard_cidrs)), dashboard_list_networks)
    ∷ (not (is_mode c.raynet_mode), raynet_mode_unknown)
    ∷ (not (is_mode c.app_mode), app_mode_unknown)
    ∷ (not (is_discovery_mode c.discovery_mode), discovery_mode_unknown)
    ∷ (not (is_unicast (parse_ipv4 c.ip)), raynet_address)
    ∷ (
      outside (pos 0) (pos 32) c.prefix_bits
          || (outside (pos 1) (pos 65535) c.health_port
              || (outside (pos 1) (pos 86400) c.ttl || outside (pos 5) (pos 200) c.log_lines)),
      out_of_range,
    )
    ∷ (
      equal c.raynet_mode (codes "manual") && not (safe_interface c.axiom_interface),
      raynet_interface,
    )
    ∷ (ltb 16 (length c.remote_interfaces), too_many_apps)
    ∷ (equal c.app_mode (codes "manual") && length c.remote_interfaces == 0, no_app)
    ∷ (not (all_safe c.remote_interfaces), app_interface)
    ∷ (not (printable c.serial 32) || not (equal c.serial (clean_serial c.serial)), serial_text)
    ∷ (
      not (printable c.version 64)
          || (not (printable c.instance_name 63) || contains_byte c.instance_name b'.'),
      version_text,
    )
    ∷ (
      ltb (length c.hostname) 1
          || (ltb 63 (length c.hostname)
              || (starts_with_dash c.hostname || ends_with_dash c.hostname)),
      hostname_length,
    )
    ∷ (not (all_bytes is_host_byte c.hostname), hostname_label)
    ∷ (
      not (equal c.log_level (codes "info") || equal c.log_level (codes "debug")),
      log_level_unknown,
    )
    ∷ (c.manage_ip && not (equal c.raynet_mode (codes "manual")), manage_ip_mode)
    ∷ []

-- `validateSettings`
unfoldable pub validate_settings : Settings → ConfigResult (Unit {0})
validate_settings c = refuse_first (settings_checks c)

-- `settingsFrom`. The ranges over the three maps of options meet the keys in any order; they set
-- different fields and, within one map, fail with the same error.
unfoldable pub settings_from : (Bytes → Bytes) → Bytes → ConfigResult Settings
unfolding get_value find_values
settings_from unicode_lower text = do
  v ← parse_uci text
  let d = default_settings
  enabled ← bool_or unicode_lower (get_value v (codes "enabled")) d.enabled
  mdns ← bool_or unicode_lower (get_value v (codes "mdns_enabled")) d.mdns
  http ← bool_or unicode_lower (get_value v (codes "web_enabled")) d.http
  manage_ip ← bool_or unicode_lower (get_value v (codes "manage_ip")) d.manage_ip
  remove_ip ← bool_or unicode_lower (get_value v (codes "remove_ip_on_stop")) d.remove_ip
  dashboard ← bool_or unicode_lower (get_value v (codes "dashboard_enabled")) d.dashboard
  allow_all ←
      bool_or unicode_lower (get_value v (codes "dashboard_allow_all")) d.dashboard_allow_all
  bits ← int_or (get_value v (codes "prefix")) d.prefix_bits
  ttl ← int_or (get_value v (codes "ttl")) d.ttl
  health_port ← int_or (get_value v (codes "health_port")) d.health_port
  log_lines ← int_or (get_value v (codes "log_lines")) d.log_lines
  dashboard_port ← int_or (get_value v (codes "dashboard_port")) d.dashboard_port
  let c : Settings = record {
    enabled = enabled;
    mdns = mdns;
    http = http;
    raynet_mode = mode_or v (codes "raynet_mode") d.raynet_mode;
    app_mode = mode_or v (codes "app_mode") d.app_mode;
    axiom_interface = text_or (get_value v (codes "axiom_interface")) d.axiom_interface;
    remote_interfaces = list_or (find_values (codes "remote_interface") v) d.remote_interfaces;
    discovery_mode = discovery_or v d.discovery_mode;
    manage_ip = manage_ip;
    ip = text_or (get_value v (codes "ipaddr")) d.ip;
    prefix_bits = bits;
    remove_ip = remove_ip;
    serial = text_or (get_value v (codes "serial")) d.serial;
    version = text_or (get_value v (codes "version")) d.version;
    hostname = text_or (get_value v (codes "hostname")) d.hostname;
    instance_name = text_or (get_value v (codes "instance")) d.instance_name;
    ttl = ttl;
    health_port = health_port;
    log_level = text_or (get_value v (codes "log_level")) d.log_level;
    log_lines = log_lines;
    dashboard = dashboard;
    dashboard_port = dashboard_port;
    dashboard_allow_all = allow_all;
    dashboard_cidrs = text_or (get_value v (codes "dashboard_allowed_cidrs")) d.dashboard_cidrs;
  }
  validate_settings c
  ok c
