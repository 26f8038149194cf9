-- ===== src/Engine/Relay/Flow.antt =====
-- What the relay of `readLoop` (daemon.go) sends, and where to.
use yachtsense_link_emulator.Common.{
  All-append, All-map, ℕ, ◌+◌, Bool, true, false, not, ◌&&◌, ◌||◌, List, [], ◌∷◌, Option, none,
  some, ◌==◌, if◌then◌else◌, length, All, ok, err, ◌≡◌, ◌≢◌, refl, sym, ap, ◌⊎◌, inl, inr, arith,
  Bool-cases,
}
use yachtsense_link_emulator.Common.Bytes.{Bytes, equal, equal_iff}
use yachtsense_link_emulator.Dns.Types.{Env, DnsResult, DnsMessage}
use yachtsense_link_emulator.Dns.Cache.{NameCache}
use yachtsense_link_emulator.Dns.Relevance.{response_relevant}
use yachtsense_link_emulator.Dns.Filter.{filter_dns}
use yachtsense_link_emulator.Engine.Observe.{observe}
use yachtsense_link_emulator.Engine.Loop.{
  fail, Endpoint, Engine, Shared, Target, multicast, Sent, Outside, send,
}
use yachtsense_link_emulator.Engine.Relay.{
  relay_all, relayed_response, relayed_query, take_response, take_query, take_message, names_after,
  filtered, with_names, record_app,
}

-- A relayed message: what the filter leaves of it, from the MFD's network to another one, or back
pub record Relays (env : Env) (g : Engine) (ep : Endpoint) (now : ℕ) (m : DnsMessage) (x : Sent)
    : Type 0 where
  pub relay : g.relay ≡ true
  pub target : x.target ≡ multicast
  pub across :
      ((m.response ≡ true)
        × (ep.name ≡ g.axiom_endpoint.name)
        × (x.through ≢ g.axiom_endpoint.name)
        × ((c : NameCache) × (d : NameCache) × (filter_dns env now m g.host g.own_instance c
              ≡ ok (some x.payload, d))))
      ⊎ ((m.response ≡ false)
          × (ep.name ≢ g.axiom_endpoint.name)
          × (x.through ≡ g.axiom_endpoint.name)
          × ((c : NameCache) × (d : NameCache) × (filter_dns env now m [] [] c
                ≡ ok (some x.payload, d))))

pub send-All :
    (P : Sent → Type 0) (through p : Bytes) (target : Target)
    → P (record { through = through; payload = p; target = target })
    → All P (send through p target)
send-All P through [] target h = tt
send-All P through (b ∷ p) target h = (h, tt)

not_text : (s t : Bytes) → equal s t ≡ false → s ≢ t
not_text s t h e = absurd (cc ((equal_iff s t).1 e))

-- Every packet of `relay_all` is the same one, to all, through another endpoint.
relay_all-All :
    (out : Outside) (from p : Bytes) (rs : List Endpoint)
    → All
        (λ x. (x.through ≢ from) × (x.payload ≡ p) × (x.target ≡ multicast))
        (relay_all out from p rs).0
unfolding relay_all
relay_all-All out from p [] = tt
relay_all-All out from p (r ∷ rs) = elim (Bool-cases (equal r.name from)) [
  | inl same ↦ rw same (relay_all-All out from p rs)
  | inr other ↦ elim (Bool-cases (out.can_send r.name)) [
    | inr bad ↦ rw (other, bad) tt
    | inl good ↦
        rw (other, good)
          (All-append _ (send r.name p multicast) (relay_all out from p rs).0
            (send-All _ r.name p multicast (not_text r.name from other, refl, refl))
            (relay_all-All out from p rs))
  ]
]

-- What is sent behind a test, if it is
pub if-All :
    (P : Sent → Type 0) (b : Bool) (x y : Shared × List Sent × Bool)
    → (b ≡ true → All P x.1)
    → (b ≡ false → All P y.1)
    → All P (if b then x else y).1
if-All P true x y h k = h refl
if-All P false x y h k = k refl

relayed_response-All :
    (out : Outside) (g : Engine) (from : Bytes) (p : Option Bytes) (s : Shared)
    → All
        (λ x. (x.through ≢ from) × (p ≡ some x.payload) × (x.target ≡ multicast))
        (relayed_response out g from p s).1
relayed_response-All out g from none s = tt
relayed_response-All out g from (some p) s =
    let sent = (relay_all out from p g.endpoints).0 in
    let P : Sent → Type 0 =
      λ x. (x.through ≢ from) × (some p ≡ some x.payload) × (x.target ≡ multicast) in
    let h : All P sent =
      All-map _ P (λ x h. (h.0, ap some (sym h.1), h.2)) sent
        (relay_all-All out from p g.endpoints) in
    if-All P (relay_all out from p g.endpoints).1
      (record s { response_count = s.response_count + 1 }, sent, true) (fail s, sent, false)
      (λ all. h) (λ stopped. h)

relayed_query-All :
    (out : Outside) (g : Engine) (p : Option Bytes) (s : Shared)
    → All
        (λ x. (x.through ≡ g.axiom_endpoint.name) × (p ≡ some x.payload) × (x.target ≡ multicast))
        (relayed_query out g p s).1
relayed_query-All out g none s = tt
relayed_query-All out g (some p) s =
    if-All _ (out.can_send g.axiom_endpoint.name) _ _
      (λ good. send-All _ g.axiom_endpoint.name p multicast (refl, refl, refl)) (λ bad. tt)

-- What the filter leaves was written without an error.
filtered-ok :
    (r : DnsResult (Option Bytes × NameCache)) (c : NameCache) {p : Bytes}
    → (filtered r c).0 ≡ some p
    → (d : NameCache) × (r ≡ ok (some p, d))
filtered-ok (ok (o, d)) c e = (d, ap (λ a. ok (a, d)) e)
filtered-ok (err x) c e = absurd (cc e)

same_text : (s t : Bytes) → equal s t ≡ true → s ≡ t
same_text s t h = (equal_iff s t).0 h

take_response-All :
    (env : Env) (out : Outside) (g : Engine) (ep : Endpoint) (now : ℕ) (m : DnsMessage) (s : Shared)
    → m.response ≡ true
    → ep.name ≡ g.axiom_endpoint.name
    → All (Relays env g ep now m) (take_response env out g now m s).1
unfolding take_response
take_response-All env out g ep now m s response here =
    let known = with_names (response_relevant env now m.records s.learned.names).1 s in
    let seen : Shared = record known {
      learned = observe env out.order g.axiom_endpoint.name now m.records known.learned;
    } in
    let run = filter_dns env now m g.host g.own_instance seen.learned.names in
    let after = names_after env now m g.host g.own_instance seen.learned.names in
    let p = (filtered run after).0 in
    if-All (Relays env g ep now m) (not (response_relevant env now m.records s.learned.names).0) _ _
      (λ irrelevant. tt)
      (λ relevant.
        if-All (Relays env g ep now m) (not g.relay) _ _ (λ off. tt)
          (λ on.
            All-map _ _
              (λ x h.
                let (d, e) = filtered-ok run after h.1 in
                record {
                  relay = ground (arith, on);
                  target = h.2;
                  across = inl (response, here, h.0, (seen.learned.names, d, e));
                })
              _
              (relayed_response-All out g g.axiom_endpoint.name p
                (with_names (filtered run after).1 seen))))

take_query-All :
    (env : Env) (out : Outside) (g : Engine) (ep : Endpoint) (now : ℕ) (ip : Bytes) (m : DnsMessage)
    (s : Shared)
    → m.response ≡ false
    → All (Relays env g ep now m) (take_query env out g ep now ip m s).1
unfolding take_query
take_query-All env out g ep now ip m s query =
    let is_axiom = equal ep.name g.axiom_endpoint.name in
    let asked : Shared =
      if not is_axiom || length g.endpoints == 1
      then record s { app_seen = record_app ep.name ip now m.questions s.app_seen }
      else s in
    let run = filter_dns env now m [] [] asked.learned.names in
    let after = names_after env now m [] [] asked.learned.names in
    if-All (Relays env g ep now m) (not is_axiom && g.relay) _ _
      (λ both.
        let other : is_axiom ≡ false = ground (arith, both) in
        let on : g.relay ≡ true = ground (arith, both) in
        All-map _ _
          (λ x h.
            let (d, e) = filtered-ok run after h.1 in
            record {
              relay = on;
              target = h.2;
              across = inr (
                query,
                not_text ep.name g.axiom_endpoint.name other,
                h.0,
                (asked.learned.names, d, e),
              );
            })
          _
          (relayed_query-All out g (filtered run after).0
            (with_names (filtered run after).1 asked)))
      (λ kept. tt)

pub take_message-All :
    (env : Env) (out : Outside) (g : Engine) (ep : Endpoint) (now : ℕ) (ip : Bytes) (m : DnsMessage)
    (s : Shared)
    → All (Relays env g ep now m) (take_message env out g ep now ip m s).1
unfolding take_message
take_message-All env out g ep now ip m s =
    if-All _ (equal ep.name g.axiom_endpoint.name && m.response) _ _
      (λ both.
        take_response-All env out g ep now m s (ground (arith, both))
          (same_text ep.name g.axiom_endpoint.name (ground (arith, both))))
      (λ rest.
        if-All _ (not m.response) _ _
          (λ query. take_query-All env out g ep now ip m s (ground (arith, query)))
          (λ response. tt))
