-- ===== src/Engine/Receive/Ends.antt =====
-- How a round of `readLoop` (daemon.go) ends its loop.
use yachtsense_link_emulator.Common.{
  ℕ, Bool, true, false, not, ◌&&◌, ◌||◌, List, [], ◌∷◌, Option, none, some, ltb, ◌==◌,
  if◌then◌else◌, length, ok, err, ◌≡◌, refl, ◌∙◌, ◌⊎◌, inl, inr, arith, Bool-cases,
}
use yachtsense_link_emulator.Common.Bytes.{Bytes, equal}
use yachtsense_link_emulator.Dns.Types.{Env, DnsResult, DnsMessage}
use yachtsense_link_emulator.Dns.Message.Parse.{parse_dns_message}
use yachtsense_link_emulator.Dns.Relevance.{member, response_relevant}
use yachtsense_link_emulator.Dns.Filter.{filter_dns}
use yachtsense_link_emulator.Engine.Observe.{lookup, observe}
use yachtsense_link_emulator.Engine.Receive.{accept, take_parsed, take_packet, round}
use yachtsense_link_emulator.Engine.Loop.{
  Endpoint, Engine, Shared, LoopState, Received, timeout, cancelled, read_error, packet, Sent,
  Outside, Round, tick, is_repeat,
}
use yachtsense_link_emulator.Engine.Relay.{
  relay_all, relayed_response, relayed_query, take_response, take_query, take_message, names_after,
  filtered, with_names, record_app,
}

-- The loop goes on and the engine's mark of failure stays; or a send has failed, the loop ends and
-- the mark is set.
abbrev pub Tells : Outside → Shared → Bool → Shared → Type 0
Tells out s goes_on s' =
    ((goes_on ≡ true) × (s'.failed ≡ s.failed))
    ⊎ ((goes_on ≡ false) × (s'.failed ≡ true) × ((name : Bytes) × (out.can_send name ≡ false)))

abbrev Goes : Outside → Shared → Shared × List Sent × Bool → Type 0
Goes out s x = Tells out s x.2 x.0

if-Goes :
    (out : Outside) (s : Shared) (b : Bool) (x y : Shared × List Sent × Bool)
    → (b ≡ true → Goes out s x)
    → (b ≡ false → Goes out s y)
    → Goes out s (if b then x else y)
if-Goes out s true x y h k = h refl
if-Goes out s false x y h k = k refl

-- A relay that stops has met an endpoint that cannot send.
relay_all-stops :
    (out : Outside) (from p : Bytes) (rs : List Endpoint)
    → (relay_all out from p rs).1 ≡ false
    → (name : Bytes) × (out.can_send name ≡ false)
unfolding relay_all
relay_all-stops out from p [] h = absurd (ground (arith, h))
relay_all-stops out from p (r ∷ rs) h = elim (Bool-cases (equal r.name from)) [
  | inl same ↦ relay_all-stops out from p rs (rw same at h)
  | inr other ↦ elim (Bool-cases (out.can_send r.name)) [
    | inr bad ↦ (r.name, bad)
    | inl good ↦ relay_all-stops out from p rs (rw (other, good) at h)
  ]
]

relayed_response-Goes :
    (out : Outside) (g : Engine) (from : Bytes) (p : Option Bytes) (s : Shared)
    → Goes out s (relayed_response out g from p s)
relayed_response-Goes out g from none s = inl (refl, refl)
relayed_response-Goes out g from (some p) s =
    if-Goes out s (relay_all out from p g.endpoints).1 _ _ (λ all. inl (refl, refl))
      (λ stopped. inr (refl, refl, relay_all-stops out from p g.endpoints stopped))

relayed_query-Goes :
    (out : Outside) (g : Engine) (p : Option Bytes) (s : Shared)
    → Goes out s (relayed_query out g p s)
relayed_query-Goes out g none s = inl (refl, refl)
relayed_query-Goes out g (some p) s =
    if-Goes out s (out.can_send g.axiom_endpoint.name) _ _ (λ good. inl (refl, refl))
      (λ bad. inr (refl, refl, (g.axiom_endpoint.name, bad)))

Goes-same :
    (out : Outside) (s t : Shared) (x : Shared × List Sent × Bool)
    → t.failed ≡ s.failed
    → Goes out t x
    → Goes out s x
Goes-same out s t x same (inl (on, kept)) = inl (on, kept ∙ same)
Goes-same out s t x same (inr h) = inr h

take_response-Goes :
    (env : Env) (out : Outside) (g : Engine) (now : ℕ) (m : DnsMessage) (s : Shared)
    → Goes out s (take_response env out g now m s)
unfolding take_response
take_response-Goes env out g now m s =
    let known = with_names (response_relevant env now m.records s.learned.names).1 s in
    let seen : Shared = record known {
      learned = observe env out.order g.axiom_endpoint.name now m.records known.learned;
    } in
    let r =
      filtered (filter_dns env now m g.host g.own_instance seen.learned.names)
        (names_after env now m g.host g.own_instance seen.learned.names) in
    if-Goes out s (not (response_relevant env now m.records s.learned.names).0) _ _
      (λ irrelevant. inl (refl, refl))
      (λ relevant.
        if-Goes out s (not g.relay) _ _ (λ off. inl (refl, refl))
          (λ on. relayed_response-Goes out g g.axiom_endpoint.name r.0 (with_names r.1 seen)))

asked-failed :
    (b : Bool) (s : Shared) (ep ip : Bytes) (now : ℕ) (m : DnsMessage)
    → (if b then record s { app_seen = record_app ep ip now m.questions s.app_seen } else s).failed
      ≡ s.failed
asked-failed true s ep ip now m = refl
asked-failed false s ep ip now m = refl

take_query-Goes :
    (env : Env) (out : Outside) (g : Engine) (ep : Endpoint) (now : ℕ) (ip : Bytes) (m : DnsMessage)
    (s : Shared)
    → Goes out s (take_query env out g ep now ip m s)
unfolding take_query
take_query-Goes env out g ep now ip m s =
    let is_axiom = equal ep.name g.axiom_endpoint.name in
    let alone = not is_axiom || length g.endpoints == 1 in
    let asked : Shared =
      if alone
      then record s { app_seen = record_app ep.name ip now m.questions s.app_seen }
      else s in
    let same : asked.failed ≡ s.failed = asked-failed alone s ep.name ip now m in
    let r =
      filtered (filter_dns env now m [] [] asked.learned.names)
        (names_after env now m [] [] asked.learned.names) in
    if-Goes out s (not is_axiom && g.relay) _ _
      (λ both.
        Goes-same out s (with_names r.1 asked) (relayed_query out g r.0 (with_names r.1 asked)) same
          (relayed_query-Goes out g r.0 (with_names r.1 asked)))
      (λ kept. inl (refl, same))

take_message-Goes :
    (env : Env) (out : Outside) (g : Engine) (ep : Endpoint) (now : ℕ) (ip : Bytes) (m : DnsMessage)
    (s : Shared)
    → Goes out s (take_message env out g ep now ip m s)
unfolding take_message
take_message-Goes env out g ep now ip m s =
    if-Goes out s (equal ep.name g.axiom_endpoint.name && m.response) _ _
      (λ both. take_response-Goes env out g now m s)
      (λ rest.
        if-Goes out s (not m.response) _ _ (λ query. take_query-Goes env out g ep now ip m s)
          (λ response. inl (refl, refl)))

abbrev Ends : Outside → Shared → Round → Type 0
Ends out s r = Tells out s r.goes_on r.shared

if-Ends :
    (out : Outside) (s : Shared) (b : Bool) (x y : Round)
    → Ends out s x
    → Ends out s y
    → Ends out s (if b then x else y)
if-Ends out s true x y h k = h
if-Ends out s false x y h k = k

take_parsed-Ends :
    (env : Env) (out : Outside) (g : Engine) (ep : Endpoint) (now : ℕ) (ip : Bytes) (port : ℕ)
    (p : Bytes) (parsed : DnsResult DnsMessage) (l : LoopState) (s : Shared)
    → Ends out s (take_parsed env out g ep now ip port p parsed l s)
unfolding accept
take_parsed-Ends env out g ep now ip port p (err e) l s = inl (refl, refl)
take_parsed-Ends env out g ep now ip port p (ok m) l s =
    if-Ends out s (m.response && not (port == 5353)) _ _ (inl (refl, refl)) (
      if-Ends out s (is_repeat now (lookup (out.digest p) l.seen_packets)) _ _ (inl (refl, refl))
        (take_message-Goes env out g ep now ip m s))

-- A round ends its loop only where the engine cancels it, with nothing changed, or where reading or
-- sending fails, and then the engine is marked as failed; no packet alone, however malformed,
-- repeated or hostile, ends it or marks the engine.
pub round-Tells :
    (env : Env) (out : Outside) (g : Engine) (ep : Endpoint) (now : ℕ) (r : Received)
    (l : LoopState) (s : Shared)
    → let a = round env out g ep now r l s in
      Tells out s a.goes_on a.shared
      ⊎ ((r ≡ cancelled) × (a.goes_on ≡ false) × (a.shared ≡ s))
      ⊎ ((r ≡ read_error) × (a.goes_on ≡ false) × (a.shared.failed ≡ true))
unfolding round take_packet
round-Tells env out g ep now timeout l s = inl (inl (refl, refl))
round-Tells env out g ep now cancelled l s = inr (inl (refl, refl, refl))
round-Tells env out g ep now read_error l s = inr (inr (refl, refl, refl))
round-Tells env out g ep now (packet ip port p) l s = inl (
    if-Ends out s (member g.local_ips ip) _ _ (inl (refl, refl)) (
      if-Ends out s (ltb 100 (tick now l).count) _ _ (inl (refl, refl))
        (take_parsed-Ends env out g ep now ip port p (parse_dns_message env p) (tick now l) s)))
