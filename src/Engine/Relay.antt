-- ===== src/Engine/Relay.antt =====
-- The last part of a round of `readLoop`: what a response or a query means for the relay and for what
-- the engine knows; `recordApp`.
pub mod Names
pub mod Flow
use yachtsense_link_emulator.Common.{
  ℕ, zero, suc, ◌+◌, ◌*◌, ◌%◌, ◌^◌, Bool, true, false, not, ◌&&◌, ◌||◌, List, [], ◌∷◌, ◌++◌, Option,
  none, some, ltb, leb, ◌==◌, if◌then◌else◌, length, ok, err,
}
use yachtsense_link_emulator.Common.Bytes.{Bytes, codes, equal}
use yachtsense_link_emulator.Dns.Types.{
  Env, DnsError, DnsResult, DnsQuestion, DnsRecord, DnsMessage, http_service, browse_type,
}
use yachtsense_link_emulator.Dns.Name.{normalize_dns_name}
use yachtsense_link_emulator.Dns.Message.Build.{empty_header}
use yachtsense_link_emulator.Dns.Message.Parse.{parse_dns_message}
use yachtsense_link_emulator.Dns.Cache.{NameCache, second}
use yachtsense_link_emulator.Dns.Relevance.{member, mfd_service_types, is_in, response_relevant}
use yachtsense_link_emulator.Dns.Filter.{
  RelayReason, filter_dns, filter_questions, forwards, packet_hosts,
}
use yachtsense_link_emulator.Engine.Observe.{
  Table, lookup, store, remove_at, Seen, EngineState, observe,
}
use yachtsense_link_emulator.Engine.Reply.{unicast_reply}
use yachtsense_link_emulator.Engine.Loop.{
  Endpoint, Engine, Shared, LoopState, Received, timeout, cancelled, read_error, packet, Target,
  multicast, sender, Sent, Outside, Round, send, fail, unseen, new_shared, reply_gap, repeat_gap,
  tick, drop_old, is_repeat, remember,
}

-- The relay of a response through every other endpoint, up to the first send that fails
unfoldable pub relay_all : Outside → Bytes → Bytes → List Endpoint → List Sent × Bool
unfolding equal
relay_all out from p [] = ([], true)
relay_all out from p (r ∷ rs) =
    let (sent, done) = relay_all out from p rs in
    if equal r.name from
    then (sent, done)
    else if not (out.can_send r.name)
    then ([], false)
    else (send r.name p multicast ++ sent, done)

-- `recordApp`: the first question for a service of the MFD
unfoldable pub record_app : Bytes → Bytes → ℕ → List DnsQuestion → Seen → Seen
unfolding member
record_app through ip now [] app = app
record_app through ip now (q ∷ qs) app =
    if member mfd_service_types q.name
    then record {
      seen_name = [];
      seen_ip = ip;
      seen_interface = through;
      seen_service = q.name;
      seen_port = 0;
      last_seen = now;
      seen_expires = now + 120 * second;
    }
    else record_app through ip now qs app

-- The cache behind the loop of `filterDNS` over the records
unfoldable pub names_after_records :
    Env → ℕ → List Bytes → Bytes → Bytes → List DnsRecord → NameCache → NameCache
names_after_records env now hosts own_host own_instance [] c = c
names_after_records env now hosts own_host own_instance (r ∷ rs) c =
    names_after_records env now hosts own_host own_instance rs
      (forwards env now hosts own_host own_instance r c).1

-- The cache behind `filterDNS` where the packet that it wrote is too large: its loops have run.
unfoldable pub names_after : Env → ℕ → DnsMessage → Bytes → Bytes → NameCache → NameCache
unfolding names_after_records
names_after env now m own_host own_instance c =
    if m.response
    then names_after_records env now (packet_hosts env m.records) own_host own_instance m.records
        (response_relevant env now m.records c).1
    else (filter_questions env now m.questions empty_header 0 c).2

-- What the filter leaves of a message, and the cache; an error is the same as nothing.
abbrev pub filtered : DnsResult (Option Bytes × NameCache) → NameCache → Option Bytes × NameCache
filtered (ok r) c = r
filtered (err e) c = (none, c)

abbrev pub with_names : NameCache → Shared → Shared
with_names c s = record s { learned = record s.learned { names = c } }

-- A relayed response is counted where every send succeeds, and ends the loop where one fails.
abbrev pub relayed_response :
    Outside → Engine → Bytes → Option Bytes → Shared → Shared × List Sent × Bool
relayed_response out g from none s = (s, [], true)
relayed_response out g from (some p) s =
    let (sent, done) = relay_all out from p g.endpoints in
    if done
    then (record s { response_count = s.response_count + 1 }, sent, true)
    else (fail s, sent, false)

abbrev pub relayed_query : Outside → Engine → Option Bytes → Shared → Shared × List Sent × Bool
relayed_query out g none s = (s, [], true)
relayed_query out g (some p) s =
    if out.can_send g.axiom_endpoint.name
    then (
      record s { query_count = s.query_count + 1 },
      send g.axiom_endpoint.name p multicast,
      true,
    )
    else (fail s, [], false)

-- A response on the MFD's network
unfoldable pub take_response :
    Env → Outside → Engine → ℕ → DnsMessage → Shared → Shared × List Sent × Bool
unfolding relay_all names_after
take_response env out g now m s =
    let (relevant, names) = response_relevant env now m.records s.learned.names in
    let known = with_names names s in
    let seen : Shared = record known {
      learned = observe env out.order g.axiom_endpoint.name now m.records known.learned;
    } in
    let (p, names') =
      filtered (filter_dns env now m g.host g.own_instance seen.learned.names)
        (names_after env now m g.host g.own_instance seen.learned.names) in
    if not relevant
    then (known, [], true)
    else if not g.relay
    then (seen, [], true)
    else relayed_response out g g.axiom_endpoint.name p (with_names names' seen)

-- A query
unfoldable pub take_query :
    Env → Outside → Engine → Endpoint → ℕ → Bytes → DnsMessage → Shared → Shared × List Sent × Bool
unfolding record_app equal names_after
take_query env out g ep now ip m s =
    let is_axiom = equal ep.name g.axiom_endpoint.name in
    let asked : Shared =
      if not is_axiom || length g.endpoints == 1
      then record s { app_seen = record_app ep.name ip now m.questions s.app_seen }
      else s in
    let (p, names) =
      filtered (filter_dns env now m [] [] asked.learned.names)
        (names_after env now m [] [] asked.learned.names) in
    if not is_axiom && g.relay
    then relayed_query out g p (with_names names asked)
    else (asked, [], true)

unfoldable pub take_message :
    Env → Outside → Engine → Endpoint → ℕ → Bytes → DnsMessage → Shared → Shared × List Sent × Bool
unfolding equal
take_message env out g ep now ip m s =
    if equal ep.name g.axiom_endpoint.name && m.response
    then take_response env out g now m s
    else if not m.response
    then take_query env out g ep now ip m s
    else (s, [], true)
