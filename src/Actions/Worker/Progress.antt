-- ===== src/Actions/Worker/Progress.antt =====
-- What a whole run of the worker does that reports success.
use yachtsense_link_emulator.Common.{
  ℕ, zero, suc, Bool, true, false, List, [], ◌∷◌, Option, none, some, ◌≡◌, refl, ap, ◌∙◌, arith,
  Bool-cases, inl, inr,
}
use yachtsense_link_emulator.Actions.Worker.{
  Step, stop, enable, start, disable, Event, stored, ran, applying, finished, begin, store_action,
  at_begin, at_end, before_step, ActionState, ServiceSettings, System, Trace, is_ready, wait_ready,
  wait_stopped, step_then, finish, after_stop, after_start, service_branch, set_service, by_kind,
  with_settings, apply_action, stop_fuel, start_fuel, completed,
}
use yachtsense_link_emulator.Actions.Worker.Readiness.{IsStable, wait_ready-IsStable}

-- The commands of a run
unfoldable pub commands : List Event → List Step
commands [] = []
commands (stored a ∷ es) = commands es
commands (ran a ∷ es) = a ∷ commands es

abbrev pub expected_commands : Bool → Bool → List Step
expected_commands true true = enable ∷ start ∷ []
expected_commands true false = disable ∷ []
expected_commands false true = stop ∷ enable ∷ start ∷ []
expected_commands false false = stop ∷ disable ∷ []

-- What a worker that reports success has done
pub record IsCompleted (s : System) (is_start : Bool) (t : Trace) : Type 0 where
  pub settings : ServiceSettings
  pub read : s.settings ≡ some settings
  pub run : commands t.0 ≡ expected_commands is_start settings.enabled
  pub stopped : is_start ≡ false → (k : ℕ) × (s.old_daemon k ≡ false)
  pub stable : settings.enabled ≡ true → IsStable (λ i. is_ready settings (s.reading i)) s.reading

commands-store_action :
    (b : Bool) (a : ActionState) (es : List Event) → commands (store_action b a es) ≡ commands es
unfolding commands
commands-store_action true a es = refl
commands-store_action false a es = refl

finish-completed : (s : System) → (finish s).1 ≡ completed → commands (finish s).0 ≡ []
unfolding commands
finish-completed s h = commands-store_action (s.can_store at_end) finished []

step_then-completed :
    (s : System) (a : Step) (t : Trace)
    → (step_then s a t).1 ≡ completed
    → (commands (step_then s a t).0 ≡ a ∷ commands t.0) × (t.1 ≡ completed)
unfolding commands
step_then-completed s a (events, o) h = elim (Bool-cases (s.step_fails a)) [
  | inl bad ↦ absurd (cc (rw bad at h))
  | inr good ↦
      rw good (
        commands-store_action (s.can_store (before_step a)) applying (ran a ∷ events),
        rw good at h,
      )
]

after_start-completed :
    (s : System) (o : Option Bool)
    → (after_start s o).1 ≡ completed
    → (o ≡ some true) × (commands (after_start s o).0 ≡ [])
unfolding commands
after_start-completed s none h = absurd (cc)
after_start-completed s (some false) h = absurd (cc)
after_start-completed s (some true) h = (refl, finish-completed s h)

after_stop-completed :
    (s : System) (o : Option Bool) (t : Trace)
    → (after_stop s o t).1 ≡ completed
    → (o ≡ some true) × (after_stop s o t ≡ t)
after_stop-completed s none t h = absurd (cc)
after_stop-completed s (some false) t h = absurd (cc)
after_stop-completed s (some true) t h = (refl, refl)

wait_stopped-gone :
    (alive : ℕ → Bool) (clock : ℕ → ℕ) (fuel k : ℕ)
    → wait_stopped alive clock fuel k ≡ some true
    → (i : ℕ) × (alive i ≡ false)
unfolding wait_stopped
wait_stopped-gone alive clock zero k h = absurd (cc)
wait_stopped-gone alive clock (suc fuel) k h = elim (Bool-cases (alive k)) [
  | inr gone ↦ (k, gone)
  | inl runs ↦ wait_stopped-gone alive clock fuel (suc k) (ground (arith, h, runs))
]

service_branch-completed :
    (s : System) (b : Bool) (waited : Option Bool)
    → (service_branch s b waited).1 ≡ completed
    → (commands (service_branch s b waited).0 ≡ expected_commands true b)
      × (b ≡ true → waited ≡ some true)
unfolding commands
service_branch-completed s false waited h =
    let (run, h1) = step_then-completed s disable (finish s) h in
    (run ∙ ap (◌∷◌ disable) (finish-completed s h1), λ e. absurd (cc))
service_branch-completed s true waited h =
    let (run, h1) = step_then-completed s enable (step_then s start (after_start s waited)) h in
    let (run1, h2) = step_then-completed s start (after_start s waited) h1 in
    let (ready, run2) = after_start-completed s waited h2 in
    (run ∙ ap (◌∷◌ enable) (run1 ∙ ap (◌∷◌ start) run2), λ e. ready)

set_service-completed :
    (s : System) (c : ServiceSettings)
    → (set_service s c).1 ≡ completed
    → (commands (set_service s c).0 ≡ expected_commands true c.enabled)
      × (c.enabled ≡ true → IsStable (λ i. is_ready c (s.reading i)) s.reading)
unfolding set_service
set_service-completed s c h =
    let waited = wait_ready is_ready c s.reading s.start_clock start_fuel 0 0 0 in
    let (run, ready) = service_branch-completed s c.enabled waited h in
    (run, λ on. wait_ready-IsStable c s.reading s.start_clock start_fuel 0 0 0 tt (ready on))

stop_expected : (b : Bool) → stop ∷ expected_commands true b ≡ expected_commands false b
stop_expected true = refl
stop_expected false = refl

began : (s : System) (t : Trace) → commands (begin s t).0 ≡ commands t.0
began s (es, o) = commands-store_action (s.can_store at_begin) applying es

by_kind-IsCompleted :
    (s : System) (b : Bool) (c : ServiceSettings)
    → s.settings ≡ some c
    → (by_kind s b c).1 ≡ completed
    → IsCompleted s b (begin s (by_kind s b c))
unfolding commands
by_kind-IsCompleted s true c read h =
    let (run, stable) = set_service-completed s c h in
    record {
      settings = c;
      read = read;
      run = began s (set_service s c) ∙ run;
      stopped = λ e. absurd (cc);
      stable = stable;
    }
by_kind-IsCompleted s false c read h =
    let waited = wait_stopped s.old_daemon s.stop_clock stop_fuel 0 in
    let (run, h1) = step_then-completed s stop (after_stop s waited (set_service s c)) h in
    let (gone, same) = after_stop-completed s waited (set_service s c) h1 in
    let (run1, stable) = set_service-completed s c (rw same at h1) in
    record {
      settings = c;
      read = read;
      run =
          began s (step_then s stop (after_stop s waited (set_service s c)))
          ∙ run
          ∙ ap (λ t. stop ∷ commands t.0) same
          ∙ ap (◌∷◌ stop) run1
          ∙ stop_expected c.enabled;
      stopped = λ e. wait_stopped-gone s.old_daemon s.stop_clock stop_fuel 0 gone;
      stable = stable;
    }

with_settings-IsCompleted :
    (s : System) (b : Bool) (o : Option ServiceSettings)
    → s.settings ≡ o
    → (with_settings s b o).1 ≡ completed
    → IsCompleted s b (with_settings s b o)
with_settings-IsCompleted s b none read h = absurd (cc)
with_settings-IsCompleted s b (some c) read h = by_kind-IsCompleted s b c read h

-- A worker that reports success found the settings, ran the commands for its kind and for whether
-- the service is enabled, in their order and no others; it saw the old daemon gone unless it only
-- starts; and where the service is enabled, three readings in a row showed one process that is ready
-- with these settings.
pub apply_action-IsCompleted :
    (s : System) (is_start : Bool)
    → (apply_action s is_start).1 ≡ completed
    → IsCompleted s is_start (apply_action s is_start)
unfolding apply_action
apply_action-IsCompleted s is_start h = with_settings-IsCompleted s is_start s.settings refl h
