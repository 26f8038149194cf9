-- ===== src/Daemon/Address/Owned.antt =====
-- The addresses that `prepareAddress` and its closure (daemon.go) take away.
use yachtsense_link_emulator.Common.{
  All-append, Bool, true, false, not, ◌&&◌, List, [], ◌∷◌, ◌++◌, Option, none, some, if◌then◌else◌,
  Result, ok, err, All, ◌≡◌, ◌≢◌, refl, ap, inl, inr, Bool-cases,
}
use yachtsense_link_emulator.Common.Bytes.{Bytes, equal, equal_iff}
use yachtsense_link_emulator.Config.Text.{parse_ipv4}
use yachtsense_link_emulator.Config.Settings.{Settings}
use yachtsense_link_emulator.Config.Interfaces.{Resolved}
use yachtsense_link_emulator.Daemon.Address.{
  ManagedAddress, Command, add_address, del_address, World, Router, AddressError, Cleanup, nothing,
  release, no_address, same_address, owned_by, run, remove_marker, wanted, release_previous,
  add_wanted, ensure_on, ensure_present, with_cleanup, ensure_after, prepare_address, marked,
  is_marked, clean_up, has_ip_now,
}

-- No command takes the address away.
abbrev pub Spares : ManagedAddress → World → Type 0
Spares a w = All (λ x. x ≢ del_address a) w.commands

run-Spares :
    (a : ManagedAddress) (x : Command) (w : World)
    → x ≢ del_address a
    → Spares a w
    → Spares a (run x w)
run-Spares a x w other h = All-append _ w.commands (x ∷ []) h (other, tt)

remove_marker-Spares :
    (router : Router) (a : ManagedAddress) (w : World)
    → Spares a w
    → Spares a (remove_marker router w)
remove_marker-Spares router a w h = elim (Bool-cases router.can_remove) [
  | inl good ↦ rw good h
  | inr bad ↦ rw bad h
]

address_of : Command → ManagedAddress
address_of (add_address a) = a
address_of (del_address a) = a

del-ne : (x a : ManagedAddress) → x ≢ a → del_address x ≢ del_address a
unfolding address_of
del-ne x a h e = h (ap address_of e)

-- What a step of `prepareAddress` keeps for an address: it is spared, and is not what is owned then.
abbrev Safe : ManagedAddress → World × Result AddressError ManagedAddress → Type 0
Safe a (w, ok owned) = Spares a w × (owned ≢ a)
Safe a (w, err e) = Spares a w

if-Safe :
    (a : ManagedAddress) (b : Bool) (x y : World × Result AddressError ManagedAddress)
    → (b ≡ true → Safe a x)
    → (b ≡ false → Safe a y)
    → Safe a (if b then x else y)
if-Safe a true x y h k = h refl
if-Safe a false x y h k = k refl

release_previous-Safe :
    (router : Router) (r : Resolved) (owned a : ManagedAddress) (w : World)
    → Spares a w
    → owned ≢ a
    → no_address ≢ a
    → Safe a (release_previous router r owned w)
unfolding release_previous
release_previous-Safe router r owned a w h other named =
    let spared = run-Spares a (del_address owned) w (del-ne owned a other) h in
    if-Safe a (not (equal owned.interface []) && not (same_address owned (wanted r))) _ _
      (λ elsewhere.
        if-Safe a (router.runs (del_address owned)) _ _
          (λ done. (remove_marker-Spares router a (run (del_address owned) w) spared, named))
          (λ failed. spared))
      (λ here. (h, other))

-- Adding an address that is there fails.
wanted-ne :
    (router : Router) (r : Resolved) (a : ManagedAddress)
    → router.runs (add_address a) ≡ false
    → router.runs (add_address (wanted r)) ≡ true
    → wanted r ≢ a
wanted-ne router r a there added e =
    absurd (cc (there, added, ap (λ x. router.runs (add_address x)) e))

add_wanted-Safe :
    (router : Router) (r : Resolved) (a : ManagedAddress) (w : World)
    → Spares a w
    → router.runs (add_address a) ≡ false
    → Safe a (add_wanted router r w)
unfolding add_wanted
add_wanted-Safe router r a w h there =
    let added = run (add_address (wanted r)) w in
    let spared : Spares a added = run-Spares a (add_address (wanted r)) w (λ e. absurd (cc e)) h in
    if-Safe a (router.runs (add_address (wanted r))) _ _
      (λ new.
        let other = wanted-ne router r a there new in
        if-Safe a router.can_write _ _ (λ good. (spared, other))
          (λ bad. run-Spares a (del_address (wanted r)) added (del-ne (wanted r) a other) spared))
      (λ failed. spared)

ensure_on-Safe :
    (found : Option (Option (List Bytes))) (router : Router) (c : Settings) (r : Resolved)
    (owned a : ManagedAddress) (w : World)
    → Spares a w
    → owned ≢ a
    → router.runs (add_address a) ≡ false
    → Safe a (ensure_on found router c r owned w)
ensure_on-Safe none router c r owned a w h other there = h
ensure_on-Safe (some addrs) router c r owned a w h other there =
    if-Safe a (has_ip_now addrs (parse_ipv4 c.ip)) _ _ (λ present. (h, other))
      (λ absent. add_wanted-Safe router r a w h there)

ensure_after-Safe :
    (router : Router) (c : Settings) (r : Resolved) (a : ManagedAddress)
    (x : World × Result AddressError ManagedAddress)
    → Safe a x
    → router.runs (add_address a) ≡ false
    → Safe a (ensure_after router c r x)
unfolding ensure_present
ensure_after-Safe router c r a (w, ok owned) h there =
    ensure_on-Safe (router.addresses_of r.raynet) router c r owned a w h.0 h.1 there
ensure_after-Safe router c r a (w, err e) h there = h

-- The end of a daemon: its closure, if `prepareAddress` gave one, whatever the marker says by then
abbrev pub stopped :
    Router → Settings → Resolved → Option Bytes → World × Result AddressError Cleanup → World
stopped router c r marker (w, ok f) = clean_up router c r f (record w { marker = marker })
stopped router c r marker (w, err e) = w

clean_up-Spares :
    (router : Router) (c : Settings) (r : Resolved) (owned a : ManagedAddress) (w : World)
    → Spares a w
    → owned ≢ a
    → Spares a (clean_up router c r (release owned) w)
unfolding clean_up
clean_up-Spares router c r owned a w h other =
    let spared = run-Spares a (del_address owned) w (del-ne owned a other) h in
    by_test
      ((c.remove_ip && same_address owned (wanted r)) && is_marked (marked router w.marker) owned) _
      _
      (by_test (router.runs (del_address owned)) _ _
        (remove_marker-Spares router a (run (del_address owned) w) spared) spared)
      h
  where
    by_test : (b : Bool) (x y : World) → Spares a x → Spares a y → Spares a (if b then x else y)
    by_test true x y h k = h
    by_test false x y h k = k

stopped-Spares :
    (router : Router) (c : Settings) (r : Resolved) (marker : Option Bytes) (a : ManagedAddress)
    (x : World × Result AddressError ManagedAddress)
    → Safe a x
    → Spares a (stopped router c r marker (with_cleanup x))
stopped-Spares router c r marker a (w, ok owned) h =
    clean_up-Spares router c r owned a (record w { marker = marker }) h.0 h.1
stopped-Spares router c r marker a (w, err e) h = h

-- From its start to its stop, whatever the marker says by then, a daemon never runs the command that
-- takes away an address that is there when it starts, so that adding it fails, and that the marker
-- did not name; the address names an interface.
pub prepare_address-Spares :
    (router : Router) (c : Settings) (r : Resolved) (w : World) (marker : Option Bytes)
    (a : ManagedAddress)
    → Spares a w
    → no_address ≢ a
    → owned_by router w.marker ≢ a
    → router.runs (add_address a) ≡ false
    → Spares a (stopped router c r marker (prepare_address router c r w))
unfolding prepare_address clean_up
prepare_address-Spares router c r w marker a h named other there =
    let previous = release_previous router r (owned_by router w.marker) w in
    let safe = release_previous-Safe router r (owned_by router w.marker) a w h other named in
    let ensured = ensure_after router c r previous in
    by_mode (not c.manage_ip) (with_cleanup ensured) (
      stopped-Spares router c r marker a ensured
        (ensure_after-Safe router c r a previous safe there))
  where
    by_mode :
        (observes : Bool) (x : World × Result AddressError Cleanup)
        → Spares a (stopped router c r marker x)
        → Spares a (
            stopped router c r marker
              (if observes then (remove_marker router w, ok nothing) else x))
    by_mode true x k = remove_marker-Spares router a w h
    by_mode false x k = k

-- Where the interface lacks the address, nothing was owned, what is written to the marker can be read
-- back, and the commands and the file operations succeed, a daemon that manages its address adds it
-- and marks it, and its stop, where the settings ask for it, takes away that address and the marker.
pub clean_up-add_wanted :
    (router : Router) (c : Settings) (r : Resolved) (w : World) (addrs : Option (List Bytes))
    → router.decode (router.encode (wanted r)) ≡ (wanted r, true)
    → (router.runs (add_address (wanted r)) ≡ true) × (router.runs (del_address (wanted r)) ≡ true)
    → (router.can_write ≡ true) × (router.can_remove ≡ true)
    → (c.manage_ip ≡ true) × (c.remove_ip ≡ true)
    → w.marker ≡ none
    → router.addresses_of r.raynet ≡ some addrs
    → has_ip_now addrs (parse_ipv4 c.ip) ≡ false
    → let started = prepare_address router c r w in
      (started.1 ≡ ok (release (wanted r)))
      × (started.0 ≡ record {
        marker = some (router.encode (wanted r));
        commands = w.commands ++ add_address (wanted r) ∷ [];
      })
      × (clean_up router c r (release (wanted r)) started.0 ≡ record {
        marker = none;
        commands = (w.commands ++ add_address (wanted r) ∷ []) ++ del_address (wanted r) ∷ [];
      })
unfolding prepare_address release_previous ensure_present add_wanted clean_up equal
clean_up-add_wanted router c r w addrs json (adds, dels) (writes, removes) (manages, cleans)
      unmarked there lacks =
    rw (manages, unmarked, there)
      (rw (lacks, adds, writes)
        (
          refl,
          refl,
          rw
              (
                json,
                cleans,
                (equal_iff r.raynet r.raynet).1 refl,
                (equal_iff r.cidr r.cidr).1 refl,
                dels,
                removes,
              )
              refl,
        ))
