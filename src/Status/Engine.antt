-- ===== src/Status/Engine.antt =====
-- `chooseEngine`, and the part of `runDaemon` (daemon.go) that hands its choice to the engine.
pub mod OneRelay
use yachtsense_link_emulator.Common.{
  ℕ, Bool, true, false, not, ◌&&◌, ◌||◌, List, [], ◌∷◌, Option, none, some, if◌then◌else◌,
}
use yachtsense_link_emulator.Common.Bytes.{Bytes, codes, equal}
use yachtsense_link_emulator.Common.Int.{ℤ, pos, negsuc}
use yachtsense_link_emulator.Config.Settings.{Settings}
use yachtsense_link_emulator.Config.Interfaces.{Resolved}
use yachtsense_link_emulator.Dns.Message.Build.{Configuration}
use yachtsense_link_emulator.Status.Avahi.{AvahiInfo}

-- Some app network is not the RayNet interface.
unfoldable pub is_distinct : Bytes → List Bytes → Bool
unfolding equal
is_distinct raynet [] = false
is_distinct raynet (n ∷ ns) = not (equal n raynet) || is_distinct raynet ns

pub data EngineError : Type 0 where
  avahi_unusable overlapping needs_attention : EngineError

-- What `chooseEngine` returns, without the text that explains it
pub record Choice : Type 0 where
  pub mode : Bytes
  pub relay : Bool
  pub failed : Option EngineError

abbrev chosen : Bytes → Bool → Option EngineError → Choice
chosen mode relay failed = record { mode = mode; relay = relay; failed = failed }

-- The branches of `chooseEngine`: whether the networks are distinct, the discovery mode that the
-- settings name, whether Avahi is eligible, and whether it overlaps the built-in relay
abbrev pub engine_of : Bool → Bool → Bool → Bool → Bool → Bool → Choice
engine_of distinct disabled avahi builtin eligible overlaps =
    if not distinct
    then chosen (codes "direct") false none
    else if disabled
    then chosen (codes "disabled") false none
    else if avahi
    then chosen (codes "avahi") false (if not eligible then some avahi_unusable else none)
    else if builtin
    then (if overlaps
        then chosen (codes "conflict") false (some overlapping)
        else chosen (codes "builtin") true none)
    else if eligible
    then chosen (codes "avahi") false none
    else if overlaps
    then chosen (codes "conflict") false (some needs_attention)
    else chosen (codes "builtin") true none

-- `chooseEngine`
unfoldable pub choose_engine : Settings → Resolved → AvahiInfo → Choice
choose_engine c r a =
    engine_of (is_distinct r.raynet r.apps) (equal c.discovery_mode (codes "disabled"))
      (equal c.discovery_mode (codes "avahi")) (equal c.discovery_mode (codes "builtin")) a.eligible
      (a.running && (a.reflector || a.unknown))

-- A validated integer as a number
abbrev natural : ℤ → ℕ
natural (pos n) = n
natural (negsuc n) = 0

-- The `configuration` that `runDaemon` builds; `ip` is `net.ParseIP(c.IP)`.
unfoldable pub daemon_configuration : Settings → Resolved → Bytes → Choice → Configuration
unfolding equal
daemon_configuration c r ip e = record {
  axiom_interface = r.raynet;
  axiom_ip = ip;
  remote_interfaces = r.apps;
  serial = c.serial;
  version = c.version;
  host_label = c.hostname;
  instance_name = c.instance_name;
  health_port = natural c.health_port;
  dashboard_port = if c.dashboard then natural c.dashboard_port else 0;
  mdns_enabled = c.mdns;
  web_enabled = c.http;
  ttl = natural c.ttl;
  relay_mode =
      if equal e.mode (codes "avahi")
      then codes "auto"
      else if e.relay
      then codes "force"
      else codes "disabled";
  existing_reflector = equal e.mode (codes "avahi");
  log_level = c.log_level;
}
