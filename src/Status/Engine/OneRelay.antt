-- ===== src/Status/Engine/OneRelay.antt =====
-- The relays that `chooseEngine` (status.go) and `determineRelayMode` (dns.go) select.
use yachtsense_link_emulator.Common.{
  Bool, true, false, ◌&&◌, ◌||◌, List, Option, none, ◌≡◌, ◌≢◌, refl, arith,
}
use yachtsense_link_emulator.Common.Bytes.{Bytes, codes, equal, equal_iff}
use yachtsense_link_emulator.Config.Settings.{Settings}
use yachtsense_link_emulator.Config.Interfaces.{Resolved}
use yachtsense_link_emulator.Dns.Filter.{determine_relay_mode}
use yachtsense_link_emulator.Status.Avahi.{AvahiInfo, inspect_avahi}
use yachtsense_link_emulator.Status.Avahi.Coverage.{IsEligible, inspect_avahi-IsEligible}
use yachtsense_link_emulator.Status.Engine.{
  is_distinct, Choice, engine_of, choose_engine, daemon_configuration,
}

-- What a choice of the built-in relay has behind it
pub record IsAlone (c : Settings) (r : Resolved) (a : AvahiInfo) (e : Choice) : Type 0 where
  pub mode : e.mode ≡ codes "builtin"
  pub failed : e.failed ≡ none
  pub distinct : is_distinct r.raynet r.apps ≡ true
  pub no_reflector : a.running ≡ true → (a.reflector ≡ false) × (a.unknown ≡ false)
  pub not_disabled : c.discovery_mode ≢ codes "disabled"
  pub not_avahi : c.discovery_mode ≢ codes "avahi"

no_overlap :
    (running reflector unknown : Bool)
    → (running && (reflector || unknown)) ≡ false
    → running ≡ true
    → (reflector ≡ false) × (unknown ≡ false)
no_overlap true false false h e = (refl, refl)
no_overlap true false true h e = absurd (cc)
no_overlap true true unknown h e = absurd (cc)
no_overlap false reflector unknown h e = absurd (cc)

not_text : (s t : Bytes) → equal s t ≡ false → s ≢ t
not_text s t h e = absurd (cc ((equal_iff s t).1 e))

relay_branch :
    (distinct disabled avahi builtin eligible overlaps : Bool)
    → let e = engine_of distinct disabled avahi builtin eligible overlaps in
      e.relay ≡ true
      → (e.mode ≡ codes "builtin")
        × (e.failed ≡ none)
        × (distinct ≡ true)
        × (disabled ≡ false)
        × (avahi ≡ false)
        × (overlaps ≡ false)
relay_branch true false false true eligible false h = (refl, refl, refl, refl, refl, refl)
relay_branch true false false false false false h = (refl, refl, refl, refl, refl, refl)
relay_branch false disabled avahi builtin eligible overlaps h = absurd (cc)
relay_branch true true avahi builtin eligible overlaps h = absurd (cc)
relay_branch true false true builtin eligible overlaps h = absurd (cc)
relay_branch true false false true eligible true h = absurd (cc)
relay_branch true false false false true overlaps h = absurd (cc)
relay_branch true false false false false true h = absurd (cc)

-- The built-in relay is chosen only between different networks, without an error, where the settings
-- neither disable discovery nor name Avahi, and where a running Avahi is known not to reflect.
pub choose_engine-IsAlone :
    (c : Settings) (r : Resolved) (a : AvahiInfo)
    → (choose_engine c r a).relay ≡ true
    → IsAlone c r a (choose_engine c r a)
unfolding choose_engine
choose_engine-IsAlone c r a h =
    let (mode, failed, distinct, on, other, alone) =
      relay_branch (is_distinct r.raynet r.apps) (equal c.discovery_mode (codes "disabled"))
        (equal c.discovery_mode (codes "avahi")) (equal c.discovery_mode (codes "builtin"))
        a.eligible (a.running && (a.reflector || a.unknown)) h in
    record {
      mode = mode;
      failed = failed;
      distinct = distinct;
      no_reflector = no_overlap a.running a.reflector a.unknown alone;
      not_disabled = not_text c.discovery_mode (codes "disabled") on;
      not_avahi = not_text c.discovery_mode (codes "avahi") other;
    }

-- The daemon's engine relays between the networks exactly where `chooseEngine` says so, whatever
-- Avahi does: the two decisions agree.
pub determine_relay_mode-choose_engine :
    (c : Settings) (r : Resolved) (a : AvahiInfo) (ip : Bytes)
    → (determine_relay_mode
        (daemon_configuration c r ip (choose_engine c r a))
        (is_distinct r.raynet r.apps)).0
      ≡ (choose_engine c r a).relay
unfolding choose_engine determine_relay_mode daemon_configuration equal
determine_relay_mode-choose_engine c r a ip =
    agree (is_distinct r.raynet r.apps) (equal c.discovery_mode (codes "disabled"))
      (equal c.discovery_mode (codes "avahi")) (equal c.discovery_mode (codes "builtin")) a.eligible
      (a.running && (a.reflector || a.unknown))
  where
    agree :
        (distinct disabled avahi builtin eligible overlaps : Bool)
        → (determine_relay_mode
            (daemon_configuration c r ip
              (engine_of distinct disabled avahi builtin eligible overlaps))
            distinct).0
          ≡ (engine_of distinct disabled avahi builtin eligible overlaps).relay
    agree false disabled avahi builtin eligible overlaps = refl
    agree true true avahi builtin eligible overlaps = refl
    agree true false true builtin eligible overlaps = refl
    agree true false false true eligible true = refl
    agree true false false true eligible false = refl
    agree true false false false true overlaps = refl
    agree true false false false false true = refl
    agree true false false false false false = refl

avahi_branch :
    (distinct disabled avahi builtin eligible overlaps : Bool)
    → let e = engine_of distinct disabled avahi builtin eligible overlaps in
      e.mode ≡ codes "avahi" → e.failed ≡ none → (eligible ≡ true) × (e.relay ≡ false)
avahi_branch true false true builtin true overlaps h k = (refl, refl)
avahi_branch true false false false true overlaps h k = (refl, refl)
avahi_branch false disabled avahi builtin eligible overlaps h k = absurd (ground arith)
avahi_branch true true avahi builtin eligible overlaps h k = absurd (ground arith)
avahi_branch true false true builtin false overlaps h k = absurd (cc)
avahi_branch true false false true eligible true h k = absurd (cc)
avahi_branch true false false true eligible false h k = absurd (ground arith)
avahi_branch true false false false false true h k = absurd (cc)
avahi_branch true false false false false false h k = absurd (ground arith)

-- Where Avahi is chosen without an error it runs, reflects, and serves the RayNet interface and every
-- app interface, and the built-in relay is off.
pub choose_engine-IsEligible :
    (unicode_lower : Bytes → Bytes) (read : Bytes → Option Bytes) (prefix : Bytes)
    (cmdlines : List Bytes) (c : Settings) (r : Resolved)
    → let a = inspect_avahi unicode_lower read prefix cmdlines r in
      (choose_engine c r a).mode ≡ codes "avahi"
      → (choose_engine c r a).failed ≡ none
      → IsEligible r a × ((choose_engine c r a).relay ≡ false)
unfolding choose_engine
choose_engine-IsEligible unicode_lower read prefix cmdlines c r h k =
    let a = inspect_avahi unicode_lower read prefix cmdlines r in
    let (eligible, off) =
      avahi_branch (is_distinct r.raynet r.apps) (equal c.discovery_mode (codes "disabled"))
        (equal c.discovery_mode (codes "avahi")) (equal c.discovery_mode (codes "builtin"))
        a.eligible (a.running && (a.reflector || a.unknown)) h k in
    (inspect_avahi-IsEligible unicode_lower read prefix cmdlines r eligible, off)
