-- ===== src/Tests/Web.antt =====
-- Examples of the dashboard and the telemetry.
use yachtsense_link_emulator.Common.{
  arith, ℕ, ◌≤◌, true, false, List, [], ◌∷◌, ◌++◌, Option, none, some, length, All, ◌≡◌, refl, ◌⊎◌,
}
use yachtsense_link_emulator.Common.Bytes.{
  Bytes, codes, equal, split, to_lower, is_ascii, contains_text, has_prefix,
}
use yachtsense_link_emulator.Dns.Types.{Env}
use yachtsense_link_emulator.Config.Words.{
  words, words_from, words_step, words_end, quoted_step, plain_step,
}
use yachtsense_link_emulator.Config.Text.{
  parse_ipv4, parse_prefix4, all_bytes, digits_value, trim_space, trim_left, trim_right, all_space,
  fields_from,
}
use yachtsense_link_emulator.Config.Uci.{find_values, set_values}
use yachtsense_link_emulator.Config.Settings.{Settings, default_settings, all_prefixes}
use yachtsense_link_emulator.Config.Interfaces.{Resolved, existing_address, lan_bridge}
use yachtsense_link_emulator.Dashboard.{
  Request, status, Snapshot, dashboard_networks, prefixes_of, app_prefixes, cidr_fields,
  any_contains, contains_ip, dashboard_allowed, handle, status_reply,
}
use yachtsense_link_emulator.Dashboard.Access.{MayRead, has_content, handle-MayRead, handle-router}
use yachtsense_link_emulator.Telemetry.Logs.{
  IsPublic, public_logs, public_lines, public_logs-IsPublic,
}
use yachtsense_link_emulator.Telemetry.Sections.{
  uci_sections, sections_from, uv, policy_of, default_policy,
}
use yachtsense_link_emulator.Telemetry.Sections.First.{
  FirstRule, IsDefault, default_policy-FirstRule,
}
use yachtsense_link_emulator.Telemetry.PublicIp.{
  usable_public_ipv4, in_none, IsPublicIp, usable_public_ipv4-IsPublicIp, Link, refresh_public_ips,
  refresh_links,
}
use yachtsense_link_emulator.Telemetry.PublicIp.Fresh.{AllFresh, refresh_public_ips-AllFresh}
use yachtsense_link_emulator.Telemetry.PublicIp.Answers.{AreAnswers}
use yachtsense_link_emulator.Config.Interfaces.{text_before}
use yachtsense_link_emulator.Telemetry.Json.{
  TextEnv, null_value, text_of, drop_controls, value_at, first,
}
use yachtsense_link_emulator.Engine.Observe.{lookup, store, remove}
use yachtsense_link_emulator.Telemetry.Devices.{
  DeviceView, Addresses, merged, merge_known_devices, add_leases, add_hosts, add_entries, add_entry,
  add_device, words_from_spaces, places, change_at, sort_devices, insert_device,
}
use yachtsense_link_emulator.Telemetry.Devices.Kept.{Extends}
use yachtsense_link_emulator.Telemetry.Devices.Grown.{merge_known_devices-Extends}
use mathlib.Core.List.{Perm}

abbrev env : Env
env = record { unicode_lower = λ s. s; ipv6_text = λ s. []; first_key = λ n. 0 }

abbrev resolved : Resolved
resolved = record {
  raynet = codes "br-lan";
  cidr = codes "198.18.0.1/21";
  apps = codes "wlan0" ∷ [];
  failed = none;
  raynet_reason = existing_address;
  app_reason = lan_bridge;
}

-- A dashboard for the networks of the default settings alone
abbrev closed : Settings
closed = record default_settings { dashboard_allow_all = false }

abbrev addresses_of : Bytes → Option (List Bytes)
addresses_of n = some (codes "192.168.8.1/24" ∷ [])

abbrev snapshot : Snapshot
snapshot = record {
  process = 41;
  updated = 5;
  mdns_active = true;
  http_active = true;
  relay_active = false;
  axiom_expires = 3;
  app_expires = 100;
  router_ready = true;
  observed = 6;
}

abbrev status_request : Request
status_request = record {
  remote = some (some (192, 168, 4, 77));
  method = codes "HEAD";
  path = codes "/api/status";
}

status-served :
    has_content (
      handle
        (λ n. none)
        (dashboard_networks addresses_of closed resolved)
        closed
        9
        snapshot
        status_request)
    ≡ true
unfolding handle dashboard_allowed any_contains contains_ip dashboard_networks app_prefixes
    prefixes_of cidr_fields parse_prefix4 parse_ipv4 split all_bytes digits_value equal status_reply
status-served = refl

handle-MayRead_example :
    MayRead addresses_of closed resolved status_request.remote
    × ((status_request.method ≡ codes "GET") ⊎ (status_request.method ≡ codes "HEAD"))
handle-MayRead_example =
    handle-MayRead addresses_of (λ n. none) closed resolved 9 snapshot status_request status-served

handle-router_example :
    handle
      (λ n. none)
      (dashboard_networks addresses_of closed resolved)
      closed
      9
      snapshot
      (record {
        remote = some (some (127, 0, 0, 1));
        method = codes "GET";
        path = codes "/api/status";
      })
    ≡ status (some (status_reply 9 snapshot))
unfolding contains_ip
handle-router_example =
    handle-router addresses_of (λ n. none) closed resolved 9 snapshot (127, 0, 0, 1) refl

-- A stranger is refused.
stranger-refused :
    has_content (
      handle
        (λ n. none)
        (dashboard_networks addresses_of closed resolved)
        closed
        9
        snapshot
        (record status_request { remote = some (some (10, 0, 0, 1)) }))
    ≡ false
unfolding handle dashboard_allowed any_contains contains_ip dashboard_networks app_prefixes
    prefixes_of cidr_fields parse_prefix4 parse_ipv4 split all_bytes digits_value equal
stranger-refused = refl

-- The settings accept networks with a carriage return between them, and the dashboard knows neither.
abbrev two_networks : Bytes
two_networks = codes "10.0.0.0/8" ++ 13 ∷ codes "192.168.0.0/16"

networks-accepted : all_prefixes (fields_from [] 0 two_networks) ≡ true
unfolding all_prefixes fields_from parse_prefix4 parse_ipv4 split all_bytes digits_value
networks-accepted = refl

networks-dropped : prefixes_of (cidr_fields [] two_networks) ≡ []
unfolding prefixes_of cidr_fields parse_prefix4 parse_ipv4 split all_bytes digits_value
networks-dropped = refl

abbrev log : Bytes
log =
    codes "yachtsense-link-emulator: INFO shutdown"
    ++ 10 ∷ codes "yachtsense-link-emulator: INFO stopped, token=7"
    ++ 10 ∷ codes "cron: INFO stopped"

one-line-shown :
    public_logs env.unicode_lower log ≡ codes "yachtsense-link-emulator: INFO shutdown" ∷ []
unfolding public_logs public_lines split contains_text has_prefix to_lower is_ascii
one-line-shown = refl

public_logs-IsPublic_example :
    (length (public_logs env.unicode_lower log) ≤ 30)
    × All (IsPublic env.unicode_lower (split b'\n' log)) (public_logs env.unicode_lower log)
public_logs-IsPublic_example = public_logs-IsPublic env.unicode_lower log

abbrev mwan : Bytes
mwan =
    codes "config interface 'wan'"
    ++ 10 ∷ codes "config rule 'https'"
    ++ 10 ∷ codes " option dest_port '443'"
    ++ 10 ∷ codes " option use_policy 'sticky'"
    ++ 10 ∷ codes "config rule 'all'"
    ++ 10 ∷ codes " option dest_ip '0.0.0.0/0'"
    ++ 10 ∷ codes " option use_policy 'balanced'"

policy-found : default_policy mwan ≡ (codes "balanced", true)
unfolding default_policy policy_of uci_sections sections_from uv find_values set_values equal split
    words words_from words_step words_end quoted_step plain_step
policy-found = refl

default_policy-FirstRule_example :
    FirstRule (default_policy mwan).0 (uci_sections mwan)
    ⊎ (((default_policy mwan).0 ≡ []) × All (λ s. ¬ IsDefault s) (uci_sections mwan))
default_policy-FirstRule_example = default_policy-FirstRule mwan

abbrev answer_text : Bytes
answer_text = codes "89.20.1.7" ++ 10 ∷ []

answer-usable : usable_public_ipv4 answer_text ≡ true
unfolding usable_public_ipv4 in_none contains_ip parse_ipv4 split all_bytes digits_value trim_space
    trim_left trim_right all_space
answer-usable = refl

usable_public_ipv4-IsPublicIp_example :
    (a : ℕ) × (b : ℕ) × (c : ℕ) × (d : ℕ) × (parse_ipv4 (trim_space answer_text)
      ≡ some (a, b, c, d))
    × IsPublicIp a b c d
usable_public_ipv4-IsPublicIp_example = usable_public_ipv4-IsPublicIp answer_text answer-usable

abbrev links : List Link
links =
    record { state = codes "active"; device = codes "wwan0"; ip = codes "10.1.2.3"; public_ip = [] }
    ∷ record { state = codes "down"; device = codes "eth1"; ip = []; public_ip = [] }
    ∷ []

abbrev fetch : Bytes → Option Bytes
fetch n = some answer_text

refresh_public_ips-AllFresh_example :
    AllFresh fetch 70 [] links (refresh_public_ips fetch 70 links []).0
    × AreAnswers (refresh_public_ips fetch 70 links []).1
unfolding refresh_public_ips refresh_links
refresh_public_ips-AllFresh_example = refresh_public_ips-AllFresh fetch 70 links [] tt

abbrev text_env : TextEnv
text_env = record { unicode_lower = λ s. s; unicode_plain = λ s. s }

abbrev any_address : Addresses
any_address = record { parse_mac = λ m. some (2 ∷ m); is_ip = λ s. true }

abbrev device : Bytes → Bytes → Bytes → Bytes → DeviceView
device name ip mac state = record {
  device_name = name;
  device_ip = ip;
  mac = mac;
  on_interface = [];
  connection = codes "LAN";
  device_state = state;
  ssid = [];
}

abbrev leases : Bytes
leases = codes "1700 02:AB 10.0.0.9 tv id" ++ 10 ∷ codes "1700 02:CD 10.0.0.3 *"

-- The lease names the first device, which keeps its state, and adds another.
abbrev seen_device : DeviceView
seen_device = device [] [] (codes "02:ab") (codes "reachable")

merge-leases :
    merge_known_devices text_env any_address (seen_device ∷ []) [] leases null_value (λ n. true)
    ≡ device [] (codes "10.0.0.3") (codes "02:cd") (codes "known")
      ∷ device (codes "tv") (codes "10.0.0.9") (codes "02:ab") (codes "reachable")
      ∷ []
unfolding merge_known_devices merged add_leases add_hosts add_entries add_entry add_device
    words_from_spaces places change_at sort_devices insert_device store lookup remove text_of
    drop_controls value_at first split uci_sections sections_from words words_from words_step
    words_end trim_space trim_left trim_right all_space to_lower is_ascii equal text_before
merge-leases = refl

merge_known_devices-Extends_example :
    let after = merged text_env any_address (seen_device ∷ []) [] leases null_value (λ n. true) in
    Perm
      (merge_known_devices text_env any_address (seen_device ∷ []) [] leases null_value (λ n. true))
      after.devices
    × Extends (seen_device ∷ []) after.devices
    × (length after.devices ≤ 256)
merge_known_devices-Extends_example =
    merge_known_devices-Extends text_env any_address (seen_device ∷ []) [] leases null_value
      (λ n. true) (omega arith)
