-- ===== src/Actions/Request.antt =====
-- `parsePayload` and `requestAction`: the checks of a request, and the effects in their order.
pub mod Accepted
use yachtsense_link_emulator.Common.{
  ℕ, Bool, true, false, not, ◌&&◌, List, [], ◌∷◌, ◌++◌, Option, none, some, ltb, if◌then◌else◌,
  length, Result, ok, err, ◌>>=◌, ◌>>◌, refuse_if,
}
use yachtsense_link_emulator.Common.Bytes.{Bytes, equal}
use yachtsense_link_emulator.Config.Words.{ConfigError}
use yachtsense_link_emulator.Config.Settings.{Settings, validate_settings}
use yachtsense_link_emulator.Config.Interfaces.{InterfaceInfo, Resolved, ResolveError, has_text}
use yachtsense_link_emulator.Config.Interfaces.Resolve.{resolve}
use yachtsense_link_emulator.Status.Avahi.{AvahiInfo}
use yachtsense_link_emulator.Status.Engine.{EngineError, choose_engine}

pub data Kind : Type 0 where
  save start stop restart unknown_kind : Kind

pub data RequestError : Type 0 where
  lock_error settings_error payload_too_long payload_malformed not_enabled unknown_action
        snapshot_error no_init_script write_error random_error store_error log_error worker_error :
      RequestError
  payload_refused : ConfigError → RequestError
  resolve_failed : ResolveError → RequestError
  engine_failed : EngineError → RequestError

abbrev pub Answer : Type 0 → Type 0
Answer A = Result RequestError A

-- What a request meets: whether it gets the lock, the saved settings, the settings that the decoder of
-- JSON reads from the payload, the interfaces, Avahi, and which of the later calls succeed;
-- `fingerprint` is the hash of the settings.
pub record RequestSystem : Type 0 where
  pub locked : Bool
  pub old : Option Settings
  pub decoded : Bytes → Option Settings
  pub snapshot : Option (List InterfaceInfo)
  pub avahi : Resolved → AvahiInfo
  pub has_init : Bool
  pub fingerprint : Settings → Bytes
  pub can_write : Bool
  pub has_random : Bool
  pub can_store : Bool
  pub can_log : Bool
  pub can_start : Bool

-- What a request changes
pub data Effect : Type 0 where
  wrote : Settings → Effect
  dropped_ownership stored_queued stored_failed started_worker : Effect

unfoldable pub without_repeats : List Bytes → List Bytes → List Bytes
unfolding has_text
without_repeats seen [] = []
without_repeats seen (n ∷ ns) =
    let skipped = without_repeats seen ns in
    let rest = without_repeats (n ∷ seen) ns in if has_text seen n then skipped else n ∷ rest

abbrev pub validated : Settings → Result ConfigError (Unit {0}) → Answer Settings
validated c (ok u) = ok c
validated c (err e) = err (payload_refused e)

-- `parsePayload`
unfoldable pub parse_payload : RequestSystem → Bytes → Answer Settings
unfolding without_repeats
parse_payload s input =
    if ltb 16384 (length input) then err payload_too_long else elim (s.decoded input) [
      | none ↦ err payload_malformed
      | some c ↦
          let d : Settings = record c {
            remote_interfaces = without_repeats [] c.remote_interfaces;
          } in
          validated d (validate_settings d)
    ]

-- The settings that a request asks for
unfoldable pub requested : RequestSystem → Kind → Bytes → Settings → Answer Settings
requested s save input old = parse_payload s input
requested s start input old = ok (record old { enabled = true })
requested s stop input old = ok (record old { enabled = false })
requested s restart input old = if not old.enabled then err not_enabled else ok old
requested s unknown_kind input old = err unknown_action

abbrev pub engine_checked : Option EngineError → Answer (Unit {0})
engine_checked none = ok tt
engine_checked (some e) = err (engine_failed e)

abbrev pub resolve_checked : Option ResolveError → Answer (Unit {0}) → Answer (Unit {0})
resolve_checked none rest = rest
resolve_checked (some e) rest = err (resolve_failed e)

-- The checks of an enabled service
unfoldable pub network_checked :
    RequestSystem → Settings → Option (List InterfaceInfo) → Answer (Unit {0})
network_checked s c none = err snapshot_error
network_checked s c (some ifs) =
    let r = resolve c ifs in
    resolve_checked r.failed (engine_checked (choose_engine c r (s.avahi r)).failed)

abbrev pub network_if : Bool → Answer (Unit {0}) → Answer (Unit {0})
network_if true rest = rest
network_if false rest = ok tt

abbrev pub saved_settings : Option Settings → Answer Settings
saved_settings none = err settings_error
saved_settings (some c) = ok c

-- The part of `requestAction` that changes nothing: the new settings and the saved ones
unfoldable pub check_request : RequestSystem → Kind → Bytes → Answer (Settings × Settings)
check_request s kind input = do
  refuse_if (not s.locked) lock_error
  old ← saved_settings s.old
  c ← requested s kind input old
  network_if c.enabled (network_checked s c s.snapshot)
  refuse_if (not s.has_init) no_init_script
  ok (c, old)

abbrev pub Report : Type 0
Report = List Effect × Answer (Unit {0})

-- The worker is queued and started.
unfoldable pub queue_worker : RequestSystem → Report
queue_worker s =
    if not s.has_random
    then ([], err random_error)
    else if not s.can_store
    then ([], err store_error)
    else if not s.can_log
    then (stored_queued ∷ [], err log_error)
    else if not s.can_start
    then (stored_queued ∷ stored_failed ∷ [], err worker_error)
    else (stored_queued ∷ started_worker ∷ [], ok tt)

-- The settings are written where they change and can be written, and then the worker is queued.
abbrev pub write_then : Bool → Bool → Settings → Report → Report
write_then can_write false c queue = queue
write_then false true c queue = ([], err write_error)
write_then true true c (effects, answer) =
    (wrote c ∷ (if not c.manage_ip then dropped_ownership ∷ effects else effects), answer)

-- The part of `requestAction` behind the checks; the flag says that the settings change.
abbrev pub perform : RequestSystem → Bool → Settings → Report
perform s changed c = write_then s.can_write changed c (queue_worker s)

abbrev pub settled : RequestSystem → Answer (Settings × Settings) → Report
settled s (err e) = ([], err e)
settled s (ok (c, old)) = perform s (not (equal (s.fingerprint c) (s.fingerprint old))) c

-- `requestAction`
unfoldable pub request_action : RequestSystem → Kind → Bytes → Report
request_action s kind input = settled s (check_request s kind input)
