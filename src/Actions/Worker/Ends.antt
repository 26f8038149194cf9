-- ===== src/Actions/Worker/Ends.antt =====
-- How a run of the worker ends, and what it has stored last.
use yachtsense_link_emulator.Common.{
  Bool, true, false, List, [], ◌∷◌, Option, none, some, ◌≡◌, ◌≢◌, refl, arith, Bool-cases, inl, inr,
  if◌then◌else◌,
}
use yachtsense_link_emulator.Actions.Worker.{
  Step, stop, enable, start, disable, at_begin, before_step, at_failure, at_end, ActionState, Event,
  stored, ran, applying, finished, failed, Outcome, ServiceSettings, System, Trace, is_ready,
  wait_ready, wait_stopped, store_action, begin, step_then, step_error, store_error, finish, fails,
  after_stop, after_start, service_branch, set_service, with_settings, settings_error, not_ready,
  old_daemon_runs, apply_action, stop_fuel, start_fuel, completed, out_of_fuel,
}
use yachtsense_link_emulator.Actions.Worker.Readiness.{Advances, wait_stopped-ends, wait_ready-ends}

unfoldable pub last_event : List Event → Option Event
last_event [] = none
last_event (e ∷ []) = some e
last_event (e ∷ f ∷ es) = last_event (f ∷ es)

-- An outcome of `fail`
pub record IsFailure (o : Outcome) : Type 0 where
  pub unfinished : o ≢ completed
  pub saved : o ≢ store_error
  pub ended : o ≢ out_of_fuel

-- How a run ends: with success, and it stored last that the action is finished; with a failure, and
-- it stored last that it failed; or the state of the end, or of the failure, could not be stored.
pub data Ends (s : System) (t : Trace) : Type 0 where
  tells_finished : t.1 ≡ completed → last_event t.0 ≡ some (stored finished) → Ends s t
  tells_failed : IsFailure t.1 → last_event t.0 ≡ some (stored failed) → Ends s t
  end_not_stored : t.1 ≡ store_error → s.can_store at_end ≡ false → Ends s t
  failure_not_stored : IsFailure t.1 → s.can_store at_failure ≡ false → Ends s t

fails-Ends : (s : System) (o : Outcome) → IsFailure o → Ends s (fails s o)
unfolding last_event
fails-Ends s o h = elim (Bool-cases (s.can_store at_failure)) [
  | inl can ↦ tells_failed h (rw can refl)
  | inr cannot ↦ failure_not_stored h cannot
]

finish-Ends : (s : System) → Ends s (finish s)
unfolding last_event
finish-Ends s = elim (Bool-cases (s.can_store at_end)) [
  | inl can ↦ tells_finished (rw can refl) (rw can refl)
  | inr cannot ↦ end_not_stored (rw cannot refl) cannot
]

-- Events that come before a run change neither its outcome nor its last event.
before-Ends :
    (s : System) (es fs : List Event) (o : Outcome)
    → ((x : Event) → last_event es ≡ some x → last_event fs ≡ some x)
    → Ends s (es, o)
    → Ends s (fs, o)
before-Ends s es fs o k (tells_finished h l) = tells_finished h (k (stored finished) l)
before-Ends s es fs o k (tells_failed h l) = tells_failed h (k (stored failed) l)
before-Ends s es fs o k (end_not_stored h l) = end_not_stored h l
before-Ends s es fs o k (failure_not_stored h l) = failure_not_stored h l

last_event-cons :
    (e : Event) (es : List Event) (x : Event)
    → last_event es ≡ some x
    → last_event (e ∷ es) ≡ some x
unfolding last_event
last_event-cons e [] x h = absurd (cc h)
last_event-cons e (f ∷ es) x h = h

last_event-store_action :
    (b : Bool) (a : ActionState) (es : List Event) (x : Event)
    → last_event es ≡ some x
    → last_event (store_action b a es) ≡ some x
last_event-store_action true a es x h = last_event-cons (stored a) es x h
last_event-store_action false a es x h = h

begin-Ends : (s : System) (t : Trace) → Ends s t → Ends s (begin s t)
begin-Ends s (es, o) h =
    before-Ends s es _ o (last_event-store_action (s.can_store at_begin) applying es) h

ran-Ends :
    (s : System) (a : Step) (t : Trace)
    → Ends s t
    → Ends s (store_action (s.can_store (before_step a)) applying (ran a ∷ t.0), t.1)
ran-Ends s a (es, o) h =
    before-Ends s es _ o
      (λ x l.
        last_event-store_action (s.can_store (before_step a)) applying (ran a ∷ es) x
          (last_event-cons (ran a) es x l))
      h

step_then-Ends : (s : System) (a : Step) (t : Trace) → Ends s t → Ends s (step_then s a t)
step_then-Ends s a (es, o) h = by_error (s.step_fails a)
  where
    by_error :
        (bad : Bool)
        → Ends s (
            if bad
            then (
              store_action
                  (s.can_store (before_step a))
                  applying
                  (ran a ∷ (fails s (step_error a)).0),
              step_error a,
            )
            else (store_action (s.can_store (before_step a)) applying (ran a ∷ es), o))
    by_error true = ran-Ends s a (fails s (step_error a)) (
        fails-Ends s (step_error a)
          (record { unfinished = λ e. cc; saved = λ e. cc; ended = λ e. cc }))
    by_error false = ran-Ends s a (es, o) h

after_start-Ends : (s : System) (o : Option Bool) → o ≢ none → Ends s (after_start s o)
after_start-Ends s none h = absurd (h refl)
after_start-Ends s (some false) h =
    fails-Ends s not_ready (record { unfinished = λ e. cc; saved = λ e. cc; ended = λ e. cc })
after_start-Ends s (some true) h = finish-Ends s

after_stop-Ends :
    (s : System) (o : Option Bool) (t : Trace) → o ≢ none → Ends s t → Ends s (after_stop s o t)
after_stop-Ends s none t h k = absurd (h refl)
after_stop-Ends s (some false) t h k =
    fails-Ends s old_daemon_runs (record { unfinished = λ e. cc; saved = λ e. cc; ended = λ e. cc })
after_stop-Ends s (some true) t h k = k

service_branch-Ends :
    (s : System) (b : Bool) (waited : Option Bool)
    → waited ≢ none
    → Ends s (service_branch s b waited)
service_branch-Ends s false waited h = step_then-Ends s disable (finish s) (finish-Ends s)
service_branch-Ends s true waited h =
    step_then-Ends s enable (step_then s start (after_start s waited))
      (step_then-Ends s start (after_start s waited) (after_start-Ends s waited h))

set_service-Ends :
    (s : System) (c : ServiceSettings) → Advances 1000 s.start_clock → Ends s (set_service s c)
unfolding set_service
set_service-Ends s c h =
    service_branch-Ends s c.enabled (wait_ready is_ready c s.reading s.start_clock start_fuel 0 0 0)
      (wait_ready-ends c s.reading s.start_clock h start_fuel 0 0 0 (omega arith) (omega arith))

with_settings-Ends :
    (s : System) (b : Bool) (o : Option ServiceSettings)
    → Advances 100 s.stop_clock
    → Advances 1000 s.start_clock
    → Ends s (with_settings s b o)
with_settings-Ends s b none h k = begin-Ends s (fails s settings_error) (
    fails-Ends s settings_error (record { unfinished = λ e. cc; saved = λ e. cc; ended = λ e. cc }))
with_settings-Ends s true (some c) h k = begin-Ends s (set_service s c) (set_service-Ends s c k)
with_settings-Ends s false (some c) h k =
    let waited = wait_stopped s.old_daemon s.stop_clock stop_fuel 0 in
    begin-Ends s (step_then s stop (after_stop s waited (set_service s c))) (
      step_then-Ends s stop (after_stop s waited (set_service s c)) (
        after_stop-Ends s waited (set_service s c)
          (wait_stopped-ends s.old_daemon s.stop_clock h stop_fuel 0 (omega arith) (omega arith))
          (set_service-Ends s c k)))

-- Where each reading is as much later as the loop sleeps, the worker ends within its fuel. If it
-- reports success, it has stored last that the action is finished; if it reports a failure, it has
-- stored last that the action failed, unless just that state, or that of the end, could not be stored.
pub apply_action-Ends :
    (s : System) (is_start : Bool)
    → Advances 100 s.stop_clock
    → Advances 1000 s.start_clock
    → Ends s (apply_action s is_start)
unfolding apply_action
apply_action-Ends s is_start h k = with_settings-Ends s is_start s.settings h k
