-- ===== src/Tests/Service.antt =====
-- Examples of the configuration, the choice of networks and engine, and the actions.
use yachtsense_link_emulator.Common.{
  ◌*◌, ◌≤◌, true, false, List, [], ◌∷◌, Option, none, some, length, ◌==◌, if◌then◌else◌, ok, ◌≡◌,
  refl, arith, inl, ◌↔◌,
}
use yachtsense_link_emulator.Common.Bytes.{
  Bytes, codes, equal, split, to_lower, is_ascii, itoa, itoa_loop, contains_byte, has_prefix,
}
use yachtsense_link_emulator.Common.Int.{pos}
use yachtsense_link_emulator.Dns.Types.{Env}
use yachtsense_link_emulator.Dns.Filter.{determine_relay_mode}
use yachtsense_link_emulator.Config.Words.{words}
use yachtsense_link_emulator.Config.Words.Quote.{quoted_line, words-quoted_line}
use yachtsense_link_emulator.Config.Text.{
  clean_serial, serial_bytes, safe_interface, all_bytes, printable, no_control, fields_from,
  parse_ipv4, parse_prefix4, digits_value, trim_space, trim_left, trim_right, all_space, as_bool,
}
use yachtsense_link_emulator.Config.Text.Serial.{IsSerial, clean_serial_fixed_iff}
use yachtsense_link_emulator.Config.Settings.{
  Settings, default_settings, validate_settings, all_prefixes, is_unicast, all_safe,
}
use yachtsense_link_emulator.Config.Interfaces.{
  InterfaceInfo, Resolved, existing_address, lan_bridge, has_ip, any_private, has_text, dotted,
}
use yachtsense_link_emulator.Config.Interfaces.Resolve.{
  resolve, choose_raynet, with_address, by_name, raynet_usable, choose_apps, candidates, suitable,
  check_apps, collect_apps, app_error,
}
use yachtsense_link_emulator.Config.Interfaces.Resolve.Sound.{IsResolved, resolve-IsResolved}
use yachtsense_link_emulator.Status.Avahi.{
  AvahiInfo, no_process, inspect_avahi, avahi_from, search_paths, all_config_paths, config_paths,
  parse_ini, ini_lines, ini_line, cut, trim_brackets_left, trim_brackets_right, at_key, comma_list,
  contains, uncovered,
}
use yachtsense_link_emulator.Status.Avahi.Coverage.{IsEligible}
use yachtsense_link_emulator.Status.Engine.{choose_engine, daemon_configuration, is_distinct}
use yachtsense_link_emulator.Status.Engine.OneRelay.{
  IsAlone, choose_engine-IsAlone, choose_engine-IsEligible, determine_relay_mode-choose_engine,
}
use yachtsense_link_emulator.Actions.Worker.{
  Reading, System, completed, apply_action, set_service, wait_stopped, wait_ready, is_ready,
}
use yachtsense_link_emulator.Actions.Worker.Progress.{IsCompleted, apply_action-IsCompleted}
use yachtsense_link_emulator.Actions.Worker.Ends.{Ends, apply_action-Ends}
use yachtsense_link_emulator.Actions.Request.{
  RequestSystem, start, wrote, request_action, check_request, requested, network_checked,
  queue_worker,
}
use yachtsense_link_emulator.Actions.Request.Accepted.{
  IsAccepted, Occurs, request_action-IsAccepted,
}

words-quoted_line_example :
    words (quoted_line (codes "it's" ∷ [] ∷ codes "a # b" ∷ []))
    ≡ ok (codes "it's" ∷ [] ∷ codes "a # b" ∷ [])
words-quoted_line_example = words-quoted_line (codes "it's" ∷ [] ∷ codes "a # b" ∷ [])

clean_serial_fixed_iff_example :
    (IsSerial (clean_serial (codes "AF-1"))
      × ((1 ≤ length (clean_serial (codes "AF-1"))) × (length (clean_serial (codes "AF-1")) ≤ 32)))
    × ((clean_serial (codes "AF-1") ≡ codes "AF-1")
        ↔ (IsSerial (codes "AF-1") × ((1 ≤ length (codes "AF-1")) × (length (codes "AF-1") ≤ 32))))
clean_serial_fixed_iff_example = clean_serial_fixed_iff (codes "AF-1")

default-valid : validate_settings default_settings ≡ ok tt
unfolding validate_settings all_prefixes is_unicast all_safe fields_from parse_prefix4 parse_ipv4
    split all_bytes digits_value safe_interface equal contains_byte printable no_control
    clean_serial serial_bytes
default-valid = refl

abbrev same : Bytes → Bytes
same s = s

abbrev config : Bytes
config = codes "config emulator 'main'\n\toption enabled '1'\n\toption ttl '60'\n"

abbrev configured : Settings
configured = record default_settings {
  enabled = true;
  raynet_mode = codes "manual";
  app_mode = codes "manual";
  ttl = pos 60;
}

abbrev lan : InterfaceInfo
lan = record {
  name = codes "br-lan";
  addresses = codes "192.168.1.1/24" ∷ [];
  mac = [];
  up = true;
  default_route = false;
  read_error = [];
}

abbrev raynet_nic : InterfaceInfo
raynet_nic = record {
  name = codes "eth1";
  addresses = codes "198.18.0.1/21" ∷ [];
  mac = [];
  up = true;
  default_route = false;
  read_error = [];
}

abbrev nics : List InterfaceInfo
nics = lan ∷ raynet_nic ∷ []

resolve-nics : (resolve default_settings nics).failed ≡ none
unfolding resolve choose_raynet with_address by_name raynet_usable choose_apps candidates suitable
    check_apps collect_apps app_error has_ip any_private has_text dotted equal parse_prefix4
    parse_ipv4 split all_bytes digits_value itoa itoa_loop
resolve-nics = refl

resolve-IsResolved_example : IsResolved nics (resolve default_settings nics)
resolve-IsResolved_example = resolve-IsResolved default_settings nics resolve-nics

abbrev networks : Resolved
networks = record {
  raynet = codes "eth1";
  cidr = codes "198.18.0.1/21";
  apps = codes "br-lan" ∷ [];
  failed = none;
  raynet_reason = existing_address;
  app_reason = lan_bridge;
}

abbrev no_avahi : AvahiInfo
no_avahi = record {
  running = false;
  reflector = false;
  eligible = false;
  unknown = false;
  reason = no_process;
  allow = [];
  deny = [];
}

relay-chosen : (choose_engine default_settings networks no_avahi).relay ≡ true
unfolding choose_engine is_distinct equal
relay-chosen = refl

choose_engine-IsAlone_example :
    IsAlone default_settings networks no_avahi (choose_engine default_settings networks no_avahi)
choose_engine-IsAlone_example =
    choose_engine-IsAlone default_settings networks no_avahi relay-chosen

determine_relay_mode-choose_engine_example :
    (determine_relay_mode
      (daemon_configuration default_settings networks []
        (choose_engine default_settings networks no_avahi))
      (is_distinct networks.raynet networks.apps)).0
    ≡ (choose_engine default_settings networks no_avahi).relay
determine_relay_mode-choose_engine_example =
    determine_relay_mode-choose_engine default_settings networks no_avahi []

abbrev avahi_conf : Bytes → Option Bytes
avahi_conf path =
    some (codes "[server]\nallow-interfaces=eth1, br-lan\n[reflector]\nenable-reflector=yes # on\n")

avahi-mode :
    (choose_engine default_settings networks
      (inspect_avahi same avahi_conf [] ([] ∷ []) networks)).mode
    ≡ codes "avahi"
unfolding choose_engine is_distinct equal inspect_avahi search_paths all_config_paths config_paths
    split has_prefix avahi_from parse_ini ini_lines ini_line cut trim_brackets_left
    trim_brackets_right at_key comma_list contains uncovered trim_space trim_left trim_right
    all_space as_bool to_lower is_ascii
avahi-mode = refl

avahi-fine :
    (choose_engine default_settings networks
      (inspect_avahi same avahi_conf [] ([] ∷ []) networks)).failed
    ≡ none
unfolding choose_engine is_distinct equal inspect_avahi search_paths all_config_paths config_paths
    split has_prefix avahi_from parse_ini ini_lines ini_line cut trim_brackets_left
    trim_brackets_right at_key comma_list contains uncovered trim_space trim_left trim_right
    all_space as_bool to_lower is_ascii
avahi-fine = refl

choose_engine-IsEligible_example :
    IsEligible networks (inspect_avahi same avahi_conf [] ([] ∷ []) networks)
    × ((choose_engine default_settings networks
          (inspect_avahi same avahi_conf [] ([] ∷ []) networks)).relay
        ≡ false)
choose_engine-IsEligible_example =
    choose_engine-IsEligible same avahi_conf [] ([] ∷ []) default_settings networks avahi-mode
      avahi-fine

abbrev ready_now : Reading
ready_now = record {
  matches = true;
  config_hash = codes "h";
  has_mdns = true;
  has_http = true;
  pid = 42;
}

abbrev router : System
router = record {
  settings = some (record { enabled = true; mdns = true; http = true; hash = codes "h" });
  step_fails = λ a. false;
  old_daemon = λ k. k == 0;
  stop_clock = λ k. k * 100;
  reading = λ k. ready_now;
  start_clock = λ k. k * 1000;
  can_store = λ p. true;
}

router-completes : (apply_action router false).1 ≡ completed
unfolding apply_action set_service wait_stopped wait_ready is_ready equal
router-completes = refl

apply_action-IsCompleted_example : IsCompleted router false (apply_action router false)
apply_action-IsCompleted_example = apply_action-IsCompleted router false router-completes

apply_action-Ends_example : Ends router (apply_action router false)
apply_action-Ends_example = apply_action-Ends router false (λ k. omega arith) (λ k. omega arith)

abbrev saved : RequestSystem
saved = record {
  locked = true;
  old = some default_settings;
  decoded = λ input. none;
  snapshot = some nics;
  avahi = λ r. no_avahi;
  has_init = true;
  fingerprint = λ c. if c.enabled then codes "1" else codes "0";
  can_write = true;
  has_random = true;
  can_store = true;
  can_log = true;
  can_start = true;
}

abbrev switched_on : Settings
switched_on = record default_settings { enabled = true }

start-writes : Occurs (wrote switched_on) (request_action saved start []).0
unfolding Occurs request_action check_request requested network_checked queue_worker resolve
    choose_raynet with_address by_name raynet_usable choose_apps candidates suitable check_apps
    collect_apps app_error has_ip any_private has_text dotted equal parse_prefix4 parse_ipv4 split
    all_bytes digits_value itoa itoa_loop choose_engine is_distinct
start-writes = inl refl

request_action-IsAccepted_example : IsAccepted saved start switched_on
request_action-IsAccepted_example =
    request_action-IsAccepted saved start [] switched_on start-writes

abbrev env : Env
env = record { unicode_lower = λ s. s; ipv6_text = λ s. []; first_key = λ n. 0 }
