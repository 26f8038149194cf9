-- ===== src/Actions/Worker.antt =====
-- `applyAction`: the worker that stops and starts the service, and the record of its progress.
pub mod Readiness
pub mod Progress
pub mod Ends
use yachtsense_link_emulator.Common.{
  ℕ, zero, suc, ◌+◌, Bool, true, false, not, ◌&&◌, ◌||◌, List, [], ◌∷◌, Option, none, some, ltb,
  leb, ◌==◌, if◌then◌else◌,
}
use yachtsense_link_emulator.Common.Bytes.{Bytes, equal}

-- The commands of the init script
pub data Step : Type 0 where
  stop enable start disable : Step

-- `Action.State`
pub data ActionState : Type 0 where
  queued applying finished failed : ActionState

-- The places of a run at which it stores the action; it comes to each at most once.
pub data Place : Type 0 where
  at_begin : Place
  before_step : Step → Place
  at_failure at_end : Place

-- What the worker does that others see: it stores the state of the action, and it runs a command.
pub data Event : Type 0 where
  stored : ActionState → Event
  ran : Step → Event

pub data Outcome : Type 0 where
  completed store_error settings_error old_daemon_runs not_ready out_of_fuel : Outcome
  step_error : Step → Outcome

-- What the worker reads of the settings; `hash` is `fingerprint(c)`.
pub record ServiceSettings : Type 0 where
  pub enabled : Bool
  pub mdns : Bool
  pub http : Bool
  pub hash : Bytes

-- One reading of the state that the daemon writes; `matches` is `processMatches`.
pub record Reading : Type 0 where
  pub matches : Bool
  pub config_hash : Bytes
  pub has_mdns : Bool
  pub has_http : Bool
  pub pid : ℕ

-- What the worker meets: the settings, the commands' errors, the readings while it waits and the
-- milliseconds since the wait began at which it takes them, and where `storeAction` succeeds
pub record System : Type 0 where
  pub settings : Option ServiceSettings
  pub step_fails : Step → Bool
  pub old_daemon : ℕ → Bool
  pub stop_clock : ℕ → ℕ
  pub reading : ℕ → Reading
  pub start_clock : ℕ → ℕ
  pub can_store : Place → Bool

-- The loop that waits for the old daemon, from its `k`-th reading on: `none` where the fuel ends,
-- and otherwise whether the daemon stopped
unfoldable pub wait_stopped : (ℕ → Bool) → (ℕ → ℕ) → ℕ → ℕ → Option Bool
wait_stopped alive clock zero k = none
wait_stopped alive clock (suc fuel) k =
    let rest = wait_stopped alive clock fuel (suc k) in
    if not (alive k) then some true else if ltb 7000 (clock k) then some false else rest

unfoldable pub is_ready : ServiceSettings → Reading → Bool
unfolding equal
is_ready c v =
    v.matches
    && (equal v.config_hash c.hash && ((not c.mdns || v.has_mdns) && (not c.http || v.has_http)))

-- The count of readings in a row that are ready and of one process, after one more that is ready
abbrev pub next_stable : ℕ → ℕ → ℕ → ℕ
next_stable pid stable new = if pid == new then suc stable else 1

-- The loop that waits for the new daemon, from its `k`-th reading on
unfoldable pub wait_ready :
    (ServiceSettings → Reading → Bool)
    → ServiceSettings
    → (ℕ → Reading)
    → (ℕ → ℕ)
    → ℕ
    → ℕ
    → ℕ
    → ℕ
    → Option Bool
wait_ready ready c reading clock zero k stable pid = none
wait_ready ready c reading clock (suc fuel) k stable pid =
    let v = reading k in
    let n = next_stable pid stable v.pid in
    let again = wait_ready ready c reading clock fuel (suc k) n v.pid in
    let anew = wait_ready ready c reading clock fuel (suc k) 0 pid in
    if not (ltb (clock k) 15000)
    then some false
    else if ready c v
    then (if leb 3 n then some true else again)
    else anew

abbrev pub Trace : Type 0
Trace = List Event × Outcome

-- `storeAction`, before what follows; where it fails, the state stays as it was.
abbrev pub store_action : Bool → ActionState → List Event → List Event
store_action true a events = stored a ∷ events
store_action false a events = events

-- `fail`, which drops the error of the store
abbrev pub fails : System → Outcome → Trace
fails s o = (store_action (s.can_store at_failure) failed [], o)

-- `step`, which drops the error of the store, and what follows where the command gives no error
abbrev pub step_then : System → Step → Trace → Trace
step_then s a (events, o) =
    if s.step_fails a
    then (
      store_action (s.can_store (before_step a)) applying (ran a ∷ (fails s (step_error a)).0),
      step_error a,
    )
    else (store_action (s.can_store (before_step a)) applying (ran a ∷ events), o)

abbrev pub finish : System → Trace
finish s = (
  store_action (s.can_store at_end) finished [],
  if s.can_store at_end then completed else store_error,
)

abbrev pub after_stop : System → Option Bool → Trace → Trace
after_stop s none rest = ([], out_of_fuel)
after_stop s (some false) rest = fails s old_daemon_runs
after_stop s (some true) rest = rest

abbrev pub after_start : System → Option Bool → Trace
after_start s none = ([], out_of_fuel)
after_start s (some false) = fails s not_ready
after_start s (some true) = finish s

-- The fuel of the two loops: a wait of 7 seconds in steps of 100 milliseconds, and one of 15 seconds
-- in steps of a second
abbrev pub stop_fuel : ℕ
stop_fuel = 72

abbrev pub start_fuel : ℕ
start_fuel = 16

-- What follows the stop, by whether the service is enabled
abbrev pub service_branch : System → Bool → Option Bool → Trace
service_branch s true waited = step_then s enable (step_then s start (after_start s waited))
service_branch s false waited = step_then s disable (finish s)

unfoldable pub set_service : System → ServiceSettings → Trace
set_service s c =
    service_branch s c.enabled (wait_ready is_ready c s.reading s.start_clock start_fuel 0 0 0)

-- The first stored state, whose error is dropped
abbrev pub begin : System → Trace → Trace
begin s (events, o) = (store_action (s.can_store at_begin) applying events, o)

-- What the worker does with the settings, behind its first stored state
abbrev pub by_kind : System → Bool → ServiceSettings → Trace
by_kind s true c = set_service s c
by_kind s false c =
    step_then s stop
      (after_stop s (wait_stopped s.old_daemon s.stop_clock stop_fuel 0) (set_service s c))

abbrev pub with_settings : System → Bool → Option ServiceSettings → Trace
with_settings s is_start none = begin s (fails s settings_error)
with_settings s is_start (some c) = begin s (by_kind s is_start c)

-- `applyAction`; the flag says that the kind of the action is "start".
unfoldable pub apply_action : System → Bool → Trace
apply_action s is_start = with_settings s is_start s.settings
