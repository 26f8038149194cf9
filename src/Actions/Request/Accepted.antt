-- ===== src/Actions/Request/Accepted.antt =====
-- What holds of the settings that a request writes.
use yachtsense_link_emulator.Common.{
  Bool, true, false, not, List, [], ◌∷◌, Option, none, some, ltb, if◌then◌else◌, length, Result, ok,
  err, >>=-eq-ok, refuse_if-eq-ok, ◌≡◌, refl, ap, subst, sym, Bool-cases, Option-cases, inl, inr,
  ◌⊎◌,
}
use yachtsense_link_emulator.Common.Bytes.{Bytes, equal}
use yachtsense_link_emulator.Config.Words.{ConfigError}
use yachtsense_link_emulator.Config.Settings.{Settings, validate_settings}
use yachtsense_link_emulator.Config.Settings.Valid.{IsValid, validate_settings-IsValid}
use yachtsense_link_emulator.Config.Interfaces.{InterfaceInfo, ResolveError}
use yachtsense_link_emulator.Config.Interfaces.Resolve.{resolve}
use yachtsense_link_emulator.Config.Interfaces.Resolve.Sound.{IsResolved, resolve-IsResolved}
use yachtsense_link_emulator.Status.Engine.{EngineError, choose_engine}
use yachtsense_link_emulator.Actions.Request.{
  Kind, save, start, stop, restart, unknown_kind, without_repeats, Answer, RequestSystem, Effect,
  wrote, dropped_ownership, stored_queued, stored_failed, started_worker, validated, parse_payload,
  requested, engine_checked, resolve_checked, network_checked, network_if, check_request,
  saved_settings, lock_error, no_init_script, queue_worker, Report, write_then, perform, settled,
  request_action,
}

unfoldable pub Occurs : Effect → List Effect → Type 0
Occurs x [] = ⊥
Occurs x (y ∷ ys) = (x ≡ y) ⊎ Occurs x ys

-- The network that an enabled service gets
pub record HasNetwork (s : RequestSystem) (c : Settings) : Type 0 where
  pub ifs : List InterfaceInfo
  pub observed : s.snapshot ≡ some ifs
  pub resolved : IsResolved ifs (resolve c ifs)
  pub engine : (choose_engine c (resolve c ifs) (s.avahi (resolve c ifs))).failed ≡ none

-- Settings that a request may write
pub record IsAccepted (s : RequestSystem) (kind : Kind) (c : Settings) : Type 0 where
  pub network : c.enabled ≡ true → HasNetwork s c
  pub valid : kind ≡ save → IsValid c

validated-IsValid :
    (c d : Settings) (r : Result ConfigError (Unit {0}))
    → validate_settings c ≡ r
    → validated c r ≡ ok d
    → IsValid d
validated-IsValid c d (ok u) e h = subst IsValid (cc) (validate_settings-IsValid c e)
validated-IsValid c d (err x) e h = absurd (cc)

parse_payload-IsValid :
    (s : RequestSystem) (input : Bytes) (d : Settings) → parse_payload s input ≡ ok d → IsValid d
unfolding parse_payload
parse_payload-IsValid s input d h = elim (Bool-cases (ltb 16384 (length input))) [
  | inl long ↦ absurd (cc (rw long at h))
  | inr short ↦ elim (Option-cases (s.decoded input)) [
    | inl bad ↦ absurd (cc (rw (short, bad) at h))
    | inr (c, e) ↦
        let new : Settings = record c {
          remote_interfaces = without_repeats [] c.remote_interfaces;
        } in
        validated-IsValid new d (validate_settings new) refl (rw (short, e) at h)
  ]
]

requested-IsValid :
    (s : RequestSystem) (kind : Kind) (input : Bytes) (old d : Settings)
    → requested s kind input old ≡ ok d
    → kind ≡ save
    → IsValid d
unfolding requested
requested-IsValid s save input old d h k = parse_payload-IsValid s input d h
requested-IsValid s start input old d h k = absurd (cc)
requested-IsValid s stop input old d h k = absurd (cc)
requested-IsValid s restart input old d h k = absurd (cc)
requested-IsValid s unknown_kind input old d h k = absurd (cc)

resolve_checked-ok :
    (o : Option ResolveError) (p : Option EngineError)
    → resolve_checked o (engine_checked p) ≡ ok tt
    → (o ≡ none) × (p ≡ none)
resolve_checked-ok none none h = (refl, refl)
resolve_checked-ok none (some e) h = absurd (cc)
resolve_checked-ok (some e) p h = absurd (cc)

network_checked-HasNetwork :
    (s : RequestSystem) (c : Settings) (o : Option (List InterfaceInfo))
    → s.snapshot ≡ o
    → network_checked s c o ≡ ok tt
    → HasNetwork s c
unfolding network_checked
network_checked-HasNetwork s c none e h = absurd (cc)
network_checked-HasNetwork s c (some ifs) e h =
    let (fine, engine) =
      resolve_checked-ok (resolve c ifs).failed
        (choose_engine c (resolve c ifs) (s.avahi (resolve c ifs))).failed h in
    record { ifs = ifs; observed = e; resolved = resolve-IsResolved c ifs fine; engine = engine }

network_if-imp : (b : Bool) (m : Answer (Unit {0})) → network_if b m ≡ ok tt → b ≡ true → m ≡ ok tt
network_if-imp true m h e = h
network_if-imp false m h e = absurd (cc)

check_request-IsAccepted :
    (s : RequestSystem) (kind : Kind) (input : Bytes) (c old : Settings)
    → check_request s kind input ≡ ok (c, old)
    → IsAccepted s kind c
unfolding check_request
check_request-IsAccepted s kind input c old h =
    let (_, h1) = refuse_if-eq-ok (not s.locked) lock_error _ h in
    let (before, _, h2) = >>=-eq-ok (saved_settings s.old) _ h1 in
    let (d, asked, h3) = >>=-eq-ok (requested s kind input before) _ h2 in
    let (_, checked, h4) = >>=-eq-ok (network_if d.enabled (network_checked s d s.snapshot)) _ h3 in
    let (_, h5) = refuse_if-eq-ok (not s.has_init) no_init_script _ h4 in
    let same : d ≡ c = ap (λ p. p.0) (ok_pair (d, before) (c, old) h5) in
    subst (IsAccepted s kind) same (record {
      network = λ on.
          network_checked-HasNetwork s d s.snapshot refl
            (network_if-imp d.enabled (network_checked s d s.snapshot) checked on);
      valid = requested-IsValid s kind input before d asked;
    })
  where
    ok_pair :
        (p q : Settings × Settings) → ◌≡◌ {A = Answer (Settings × Settings)} (ok p) (ok q) → p ≡ q
    ok_pair p q e = cc

queue_worker-wrote : (s : RequestSystem) (c : Settings) → ¬ Occurs (wrote c) (queue_worker s).0
unfolding queue_worker Occurs
queue_worker-wrote s c = elim (Bool-cases s.has_random) [
  | inr a ↦ rw a (λ e. e)
  | inl a ↦ elim (Bool-cases s.can_store) [
    | inr b ↦ rw (a, b) (λ e. e)
    | inl b ↦ elim (Bool-cases s.can_log) [
      | inr d ↦ rw (a, b, d) not_queued
      | inl d ↦ elim (Bool-cases s.can_start) [
        | inr x ↦ rw (a, b, d, x) not_failed
        | inl x ↦ rw (a, b, d, x) not_started
      ]
    ]
  ]
]
  where
    not_queued : ¬ Occurs (wrote c) (stored_queued ∷ [])
    not_queued (inl e) = absurd (cc)
    not_queued (inr e) = e

    not_failed : ¬ Occurs (wrote c) (stored_queued ∷ stored_failed ∷ [])
    not_failed (inl e) = absurd (cc)
    not_failed (inr (inl e)) = absurd (cc)
    not_failed (inr (inr e)) = e

    not_started : ¬ Occurs (wrote c) (stored_queued ∷ started_worker ∷ [])
    not_started (inl e) = absurd (cc)
    not_started (inr (inl e)) = absurd (cc)
    not_started (inr (inr e)) = e

written :
    (c d : Settings) (effects : List Effect)
    → ¬ Occurs (wrote d) effects
    → Occurs
        (wrote d)
        (wrote c ∷ (if not c.manage_ip then dropped_ownership ∷ effects else effects))
    → d ≡ c
unfolding Occurs
written c d effects other (inl e) = cc
written c d effects other (inr h) = elim (Bool-cases c.manage_ip) [
  | inl kept ↦ absurd (other (rw kept at h))
  | inr free ↦ absurd (dropped (rw free at h))
]
  where
    dropped : ¬ Occurs (wrote d) (dropped_ownership ∷ effects)
    dropped (inl e) = absurd (cc)
    dropped (inr k) = other k

write_then-wrote :
    (can_write changed : Bool) (c d : Settings) (queue : Report)
    → ¬ Occurs (wrote d) queue.0
    → Occurs (wrote d) (write_then can_write changed c queue).0
    → d ≡ c
unfolding Occurs
write_then-wrote can_write false c d queue other h = absurd (other h)
write_then-wrote false true c d queue other h = absurd h
write_then-wrote true true c d (effects, answer) other h = written c d effects other h

perform-wrote :
    (s : RequestSystem) (b : Bool) (c d : Settings) → Occurs (wrote d) (perform s b c).0 → d ≡ c
perform-wrote s b c d h =
    write_then-wrote s.can_write b c d (queue_worker s) (queue_worker-wrote s d) h

settled-IsAccepted :
    (s : RequestSystem) (kind : Kind) (input : Bytes) (d : Settings)
    (a : Answer (Settings × Settings))
    → check_request s kind input ≡ a
    → Occurs (wrote d) (settled s a).0
    → IsAccepted s kind d
unfolding Occurs
settled-IsAccepted s kind input d (err x) e h = absurd h
settled-IsAccepted s kind input d (ok (c, old)) e h =
    subst (IsAccepted s kind)
      (sym (perform-wrote s (not (equal (s.fingerprint c) (s.fingerprint old))) c d h))
      (check_request-IsAccepted s kind input c old e)

-- Settings that a request writes are valid where they come from a payload; and where they enable the
-- service, `resolve` finds its networks among the interfaces that the request sees, and
-- `chooseEngine` gives no error.
pub request_action-IsAccepted :
    (s : RequestSystem) (kind : Kind) (input : Bytes) (d : Settings)
    → Occurs (wrote d) (request_action s kind input).0
    → IsAccepted s kind d
unfolding request_action
request_action-IsAccepted s kind input d h =
    settled-IsAccepted s kind input d (check_request s kind input) refl h
