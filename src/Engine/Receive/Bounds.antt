-- ===== src/Engine/Receive/Bounds.antt =====
-- The sizes of what a round of `readLoop` (daemon.go) keeps and shares.
use yachtsense_link_emulator.Common.{
  ℕ, ◌+◌, ◌%◌, ◌≤◌, Bool, true, false, not, ◌&&◌, ◌||◌, List, [], ◌∷◌, Option, none, some, leb, ltb,
  ◌==◌, if◌then◌else◌, length, ok, err, ◌≡◌, refl, arith, Bool-cases, inl, inr,
}
use yachtsense_link_emulator.Common.Bytes.{Bytes, equal}
use yachtsense_link_emulator.Dns.Types.{Env, DnsResult, DnsMessage}
use yachtsense_link_emulator.Dns.Message.Parse.{parse_dns_message}
use yachtsense_link_emulator.Dns.Relevance.{member, response_relevant}
use yachtsense_link_emulator.Dns.Cache.{second}
use yachtsense_link_emulator.Dns.Filter.{filter_dns}
use yachtsense_link_emulator.Engine.Observe.{Table, remove, remove_at, store, lookup, observe}
use yachtsense_link_emulator.Engine.Observe.Bounds.{length-remove_at, remainder_lt, observe-le}
use yachtsense_link_emulator.Engine.Receive.{
  own_questions, reply, accept, take_parsed, take_packet, round,
}
use yachtsense_link_emulator.Engine.Relay.Names.{
  response_relevant-Small, observe-Small, filtered-Small,
}
use yachtsense_link_emulator.Engine.Loop.{
  Endpoint, Engine, Shared, LoopState, Received, timeout, cancelled, read_error, packet, Sent,
  Outside, Round, tick, drop_old, remember, is_repeat, reply_gap,
}
use yachtsense_link_emulator.Engine.Relay.{
  relay_all, relayed_response, relayed_query, take_response, take_query, take_message, names_after,
  filtered, with_names, record_app,
}

length-remove-le : {A : Type 0} (n : Bytes) (t : Table A) → length (remove n t) ≤ length t
unfolding remove
length-remove-le n [] = omega arith
length-remove-le n ((k, a) ∷ t) = ground (arith, length-remove-le n t)

length-drop_old-le : (now : ℕ) (t : Table ℕ) → length (drop_old now t) ≤ length t
unfolding drop_old
length-drop_old-le now [] = omega arith
length-drop_old-le now ((d, s) ∷ t) = ground (arith, length-drop_old-le now t)

length-remember-le :
    (env : Env) (now : ℕ) (d : Bytes) (t : Table ℕ)
    → length t ≤ 256
    → length (remember env now d t) ≤ 256
unfolding remember store
length-remember-le env now d t h =
    let live = drop_old now t in
    let i = env.first_key (length live) % length live in
    elim (Bool-cases (leb 256 (length t))) [
      | inr few ↦ rw few (ground (arith, length-remove-le d t))
      | inl full ↦ elim (Bool-cases (leb 256 (length live))) [
        | inr room ↦ rw (full, room) (ground (arith, length-remove-le d live))
        | inl none_old ↦
            let one =
              length-remove_at i live
                (remainder_lt (env.first_key (length live)) (length live) (ground arith)) in
            rw (full, none_old)
              (omega
                (arith, length-remove-le d (remove_at i live), one, length-drop_old-le now t, h))
      ]
    ]

-- What the loops share is bounded.
pub record IsBounded (s : Shared) : Type 0 where
  pub services : length s.learned.obs ≤ 256
  pub hosts : length s.learned.hosts ≤ 512
  pub names : length s.learned.names ≤ 1024

relayed_response-IsBounded :
    (out : Outside) (g : Engine) (from : Bytes) (p : Option Bytes) (s : Shared)
    → IsBounded s
    → IsBounded (relayed_response out g from p s).0
relayed_response-IsBounded out g from none s h = h
relayed_response-IsBounded out g from (some p) s h =
    elim (Bool-cases (relay_all out from p g.endpoints).1) [
      | inl all ↦ rw all (record { services = h.services; hosts = h.hosts; names = h.names })
      | inr stopped ↦
          rw stopped (record { services = h.services; hosts = h.hosts; names = h.names })
    ]

relayed_query-IsBounded :
    (out : Outside) (g : Engine) (p : Option Bytes) (s : Shared)
    → IsBounded s
    → IsBounded (relayed_query out g p s).0
relayed_query-IsBounded out g none s h = h
relayed_query-IsBounded out g (some p) s h =
    elim (Bool-cases (out.can_send g.axiom_endpoint.name)) [
      | inl good ↦ rw good (record { services = h.services; hosts = h.hosts; names = h.names })
      | inr bad ↦ rw bad (record { services = h.services; hosts = h.hosts; names = h.names })
    ]

if-IsBounded :
    (b : Bool) (x y : Shared × List Sent × Bool)
    → IsBounded x.0
    → IsBounded y.0
    → IsBounded (if b then x else y).0
if-IsBounded true x y h k = h
if-IsBounded false x y h k = k

take_response-IsBounded :
    (env : Env) (out : Outside) (g : Engine) (now : ℕ) (m : DnsMessage) (s : Shared)
    → IsBounded s
    → IsBounded (take_response env out g now m s).0
unfolding take_response
take_response-IsBounded env out g now m s h =
    let known = with_names (response_relevant env now m.records s.learned.names).1 s in
    let names = response_relevant-Small env now m.records s.learned.names h.names in
    let seen = observe env out.order g.axiom_endpoint.name now m.records known.learned in
    let (services, hosts) =
      observe-le env out.order g.axiom_endpoint.name now m.records known.learned in
    let names' =
      observe-Small env out.order g.axiom_endpoint.name now m.records known.learned names in
    let (p, names'') =
      filtered (filter_dns env now m g.host g.own_instance seen.names)
        (names_after env now m g.host g.own_instance seen.names) in
    let small = filtered-Small env now m g.host g.own_instance seen.names names' in
    if-IsBounded (not (response_relevant env now m.records s.learned.names).0) _ _
      (record { services = h.services; hosts = h.hosts; names = names })
      (if-IsBounded (not g.relay) _ _
        (record { services = services; hosts = hosts; names = names' })
        (relayed_response-IsBounded out g g.axiom_endpoint.name p
          (with_names names'' (record known { learned = seen }))
          (record { services = services; hosts = hosts; names = small })))

take_query-IsBounded :
    (env : Env) (out : Outside) (g : Engine) (ep : Endpoint) (now : ℕ) (ip : Bytes) (m : DnsMessage)
    (s : Shared)
    → IsBounded s
    → IsBounded (take_query env out g ep now ip m s).0
unfolding take_query
take_query-IsBounded env out g ep now ip m s h =
    let is_axiom = equal ep.name g.axiom_endpoint.name in
    let asked : Shared =
      if not is_axiom || length g.endpoints == 1
      then record s { app_seen = record_app ep.name ip now m.questions s.app_seen }
      else s in
    let k : IsBounded asked = asked-IsBounded (not is_axiom || length g.endpoints == 1) in
    let (p, names) =
      filtered (filter_dns env now m [] [] asked.learned.names)
        (names_after env now m [] [] asked.learned.names) in
    let small = filtered-Small env now m [] [] asked.learned.names k.names in
    if-IsBounded (not is_axiom && g.relay) _ _
      (relayed_query-IsBounded out g p (with_names names asked)
        (record { services = k.services; hosts = k.hosts; names = small }))
      k
  where
    asked-IsBounded :
        (b : Bool)
        → IsBounded (
            if b
            then record s { app_seen = record_app ep.name ip now m.questions s.app_seen }
            else s)
    asked-IsBounded true = record { services = h.services; hosts = h.hosts; names = h.names }
    asked-IsBounded false = h

take_message-IsBounded :
    (env : Env) (out : Outside) (g : Engine) (ep : Endpoint) (now : ℕ) (ip : Bytes) (m : DnsMessage)
    (s : Shared)
    → IsBounded s
    → IsBounded (take_message env out g ep now ip m s).0
unfolding take_message
take_message-IsBounded env out g ep now ip m s h =
    if-IsBounded (equal ep.name g.axiom_endpoint.name && m.response) _ _
      (take_response-IsBounded env out g now m s h)
      (if-IsBounded (not m.response) _ _ (take_query-IsBounded env out g ep now ip m s h) h)

pub reply-seen_packets :
    (env : Env) (g : Engine) (ep : Endpoint) (now : ℕ) (ip : Bytes) (port : ℕ) (m : DnsMessage)
    (l : LoopState)
    → (reply env g ep now ip port m l).0.seen_packets ≡ l.seen_packets
unfolding reply
reply-seen_packets env g ep now ip port m l =
    let own = (own_questions g m.questions (false, not (port == 5353))).0 in
    kept (not m.response && ep.publish && (own && ltb (l.last_reply + reply_gap) now)) _
  where
    kept :
        (b : Bool) (sent : List Sent)
        → (if◌then◌else◌ {A = LoopState × List Sent} b
            (record l { last_reply = now }, sent)
            (l, [])).0.seen_packets
          ≡ l.seen_packets
    kept true sent = refl
    kept false sent = refl

-- Bounds on a loop and on what is shared
pub record AreBounded (l : LoopState) (s : Shared) : Type 0 where
  pub packets : length l.seen_packets ≤ 256
  pub shared : IsBounded s

pub tick-seen_packets : (now : ℕ) (l : LoopState) → (tick now l).seen_packets ≡ l.seen_packets
unfolding tick
tick-seen_packets now l = elim (Bool-cases (ltb (l.window + second) now)) [
  | inl new ↦ rw new
  | inr same ↦ rw same
]

accept-AreBounded :
    (env : Env) (out : Outside) (g : Engine) (ep : Endpoint) (now : ℕ) (ip : Bytes) (port : ℕ)
    (p : Bytes) (m : DnsMessage) (l : LoopState) (s : Shared)
    → AreBounded l s
    → let r = accept env out g ep now ip port p m l s in AreBounded r.loop r.shared
unfolding accept
accept-AreBounded env out g ep now ip port p m l s h =
    let kept : LoopState = record l {
      seen_packets = remember env now (out.digest p) l.seen_packets;
    } in
    record {
      packets =
          rw (reply-seen_packets env g ep now ip port m kept)
            (length-remember-le env now (out.digest p) l.seen_packets h.packets);
      shared = take_message-IsBounded env out g ep now ip m s h.shared;
    }

if-AreBounded :
    (b : Bool) (x y : Round)
    → AreBounded x.loop x.shared
    → AreBounded y.loop y.shared
    → AreBounded (if b then x else y).loop (if b then x else y).shared
if-AreBounded true x y h k = h
if-AreBounded false x y h k = k

take_parsed-AreBounded :
    (env : Env) (out : Outside) (g : Engine) (ep : Endpoint) (now : ℕ) (ip : Bytes) (port : ℕ)
    (p : Bytes) (parsed : DnsResult DnsMessage) (l : LoopState) (s : Shared)
    → AreBounded l s
    → let r = take_parsed env out g ep now ip port p parsed l s in AreBounded r.loop r.shared
take_parsed-AreBounded env out g ep now ip port p (err e) l s h = h
take_parsed-AreBounded env out g ep now ip port p (ok m) l s h =
    if-AreBounded (m.response && not (port == 5353)) _ _ h (
      if-AreBounded (is_repeat now (lookup (out.digest p) l.seen_packets)) _ _ h
        (accept-AreBounded env out g ep now ip port p m l s h))

take_packet-AreBounded :
    (env : Env) (out : Outside) (g : Engine) (ep : Endpoint) (now : ℕ) (ip : Bytes) (port : ℕ)
    (p : Bytes) (l : LoopState) (s : Shared)
    → AreBounded l s
    → let r = take_packet env out g ep now ip port p l s in AreBounded r.loop r.shared
unfolding take_packet
take_packet-AreBounded env out g ep now ip port p l s h =
    take_parsed-AreBounded env out g ep now ip port p (parse_dns_message env p) l s h

-- One round of a loop keeps the bounds, whatever it reads.
pub round-AreBounded :
    (env : Env) (out : Outside) (g : Engine) (ep : Endpoint) (now : ℕ) (r : Received)
    (l : LoopState) (s : Shared)
    → AreBounded l s
    → let a = round env out g ep now r l s in AreBounded a.loop a.shared
unfolding round
round-AreBounded env out g ep now timeout l s h = h
round-AreBounded env out g ep now cancelled l s h = h
round-AreBounded env out g ep now read_error l s h = record {
  packets = h.packets;
  shared = record { services = h.shared.services; hosts = h.shared.hosts; names = h.shared.names };
}
round-AreBounded env out g ep now (packet ip port p) l s h =
    let ticked : AreBounded (tick now l) s = record {
      packets = rw (tick-seen_packets now l) h.packets;
      shared = h.shared;
    } in
    if-AreBounded (member g.local_ips ip) _ _ h (
      if-AreBounded (ltb 100 (tick now l).count) _ _ ticked
        (take_packet-AreBounded env out g ep now ip port p (tick now l) s ticked))
