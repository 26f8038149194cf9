-- ===== src/Tests/Router.antt =====
-- Examples of the engine's endpoints and the managed address.
use yachtsense_link_emulator.Common.{
  Bool, true, false, [], ◌∷◌, ◌++◌, Option, none, some, length, take, drop, if◌then◌else◌, ok, ◌≡◌,
  refl,
}
use yachtsense_link_emulator.Common.Bytes.{
  Bytes, codes, equal, split, to_lower, is_ascii, trim_suffix_byte,
}
use yachtsense_link_emulator.Dns.Types.{Env}
use yachtsense_link_emulator.Dns.Name.{encode_dns_name, encode_labels}
use yachtsense_link_emulator.Dns.Message.Build.{
  Configuration, append_rr, append_entries, append_uint16, append_uint32, put_uint16, uint16_bytes,
  uint32_bytes, append_resource_record, to4, build_announcement, build_txt_data,
}
use yachtsense_link_emulator.Config.Text.{parse_ipv4, parse_prefix4, all_bytes, digits_value}
use yachtsense_link_emulator.Config.Settings.{Settings, default_settings}
use yachtsense_link_emulator.Config.Interfaces.{Resolved, existing_address, lan_bridge, has_text}
use yachtsense_link_emulator.Engine.Build.{
  Net, NetInterface, make_endpoints, open_endpoint, engine_from,
}
use yachtsense_link_emulator.Daemon.Address.{
  ManagedAddress, Command, add_address, del_address, World, Router, release, wanted,
  prepare_address, clean_up, interface_has_ip, first_interface_ipv4, no_address,
}
use yachtsense_link_emulator.Daemon.Address.Owned.{
  Spares, stopped, prepare_address-Spares, clean_up-add_wanted,
}
use yachtsense_link_emulator.Engine.Loop.{Engine, Outside}

abbrev env : Env
env = record { unicode_lower = λ s. s; ipv6_text = λ s. []; first_key = λ n. 0 }

-- A boat's network and a wireless one, with a reflector between them
abbrev configuration : Configuration
configuration = record {
  axiom_interface = codes "br-lan";
  axiom_ip = 198 ∷ 18 ∷ 0 ∷ 1 ∷ [];
  remote_interfaces = codes "wlan0" ∷ codes "br-lan" ∷ [];
  serial = codes "AF002A4";
  version = codes "V142";
  host_label = codes "main";
  instance_name = codes "link";
  health_port = 7777;
  dashboard_port = 0;
  mdns_enabled = true;
  web_enabled = true;
  ttl = 120;
  relay_mode = codes "auto";
  existing_reflector = true;
  log_level = codes "info";
}

abbrev interfaces : Bytes → Option NetInterface
interfaces n =
    if◌then◌else◌ {A = Option NetInterface} (equal n (codes "br-lan"))
      (some (record { addresses = some (codes "198.18.0.1/21" ∷ []); mac = [] }))
      (some (record { addresses = some (codes "192.168.4.1/24" ∷ []); mac = [] }))

abbrev net : Net
net = record { interface_by_name = interfaces; opens = λ n ip. true }

abbrev outside : Outside
outside = record { digest = λ p. p; can_send = λ n. true; order = λ l. l }

abbrev built : Engine
built =
    engine_from env configuration (
      make_endpoints env net configuration []
        (codes "br-lan" ∷ codes "wlan0" ∷ codes "br-lan" ∷ []))

two-endpoints : length built.endpoints ≡ 2
unfolding make_endpoints open_endpoint has_text equal first_interface_ipv4 interface_has_ip
    parse_prefix4 parse_ipv4 all_bytes digits_value split to4 build_announcement build_txt_data
    append_entries append_resource_record append_rr append_uint16 append_uint32 uint16_bytes
    uint32_bytes put_uint16 encode_dns_name encode_labels trim_suffix_byte to_lower is_ascii
two-endpoints = refl

-- A daemon that manages its address
abbrev managing : Settings
managing = record default_settings { manage_ip = true; remove_ip = true }

abbrev resolved : Resolved
resolved = record {
  raynet = codes "br-lan";
  cidr = codes "198.18.0.1/21";
  apps = codes "wlan0" ∷ [];
  failed = none;
  raynet_reason = existing_address;
  app_reason = lan_bridge;
}

-- A marker that holds the length of the interface's name, the name and the address
abbrev decode : Bytes → ManagedAddress × Bool
decode [] = (no_address, false)
decode (n ∷ s) = (record { interface = take n s; cidr = drop n s }, true)

-- `ip` refuses to add 198.18.0.2/21, which is there.
abbrev runs : Command → Bool
runs (add_address a) = if equal a.cidr (codes "198.18.0.2/21") then false else true
runs (del_address a) = true

abbrev router : Router
router = record {
  runs = runs;
  encode = λ a. length a.interface ∷ a.interface ++ a.cidr;
  decode = decode;
  can_write = true;
  can_remove = true;
  addresses_of = λ n. some (some (codes "198.18.0.2/21" ∷ []));
}

abbrev before : World
before = record { marker = none; commands = [] }

abbrev users : ManagedAddress
users = record { interface = codes "br-lan"; cidr = codes "198.18.0.2/21" }

prepare_address-Spares_example : Spares users (
    stopped router managing resolved
      (some (router.encode (wanted resolved)))
      (prepare_address router managing resolved before))
unfolding equal
prepare_address-Spares_example =
    prepare_address-Spares router managing resolved before (some (router.encode (wanted resolved)))
      users tt (λ e. absurd (cc e)) (λ e. absurd (cc e)) refl

clean_up-add_wanted_example :
    let began = prepare_address router managing resolved before in
    (began.1 ≡ ok (release (wanted resolved)))
    × (began.0 ≡ record {
      marker = some (router.encode (wanted resolved));
      commands = add_address (wanted resolved) ∷ [];
    })
    × (clean_up router managing resolved (release (wanted resolved)) began.0 ≡ record {
      marker = none;
      commands = add_address (wanted resolved) ∷ del_address (wanted resolved) ∷ [];
    })
unfolding equal interface_has_ip parse_prefix4 parse_ipv4 split all_bytes digits_value
clean_up-add_wanted_example =
    clean_up-add_wanted router managing resolved before (some (codes "198.18.0.2/21" ∷ [])) refl
      (refl, refl) (refl, refl) (refl, refl) refl refl refl
