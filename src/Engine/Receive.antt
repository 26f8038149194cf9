-- ===== src/Engine/Receive.antt =====
-- `readLoop`: what an endpoint of the engine does with each packet that it receives. One reading of
-- the clock serves a round; a lock of the shared state makes each update one step.
pub mod Bounds
pub mod Flow
pub mod Repeats
pub mod Ends
use yachtsense_link_emulator.Common.{
  ℕ, zero, suc, ◌+◌, ◌*◌, ◌%◌, ◌^◌, Bool, true, false, not, ◌&&◌, ◌||◌, List, [], ◌∷◌, ◌++◌, Option,
  none, some, ltb, leb, ◌==◌, if◌then◌else◌, length, ok, err,
}
use yachtsense_link_emulator.Common.Bytes.{Bytes, codes, equal}
use yachtsense_link_emulator.Dns.Types.{
  Env, DnsError, DnsResult, DnsQuestion, DnsRecord, DnsMessage, http_service, browse_type,
}
use yachtsense_link_emulator.Dns.Name.{normalize_dns_name}
use yachtsense_link_emulator.Dns.Message.Build.{empty_header}
use yachtsense_link_emulator.Dns.Message.Parse.{parse_dns_message}
use yachtsense_link_emulator.Dns.Cache.{NameCache, second}
use yachtsense_link_emulator.Dns.Relevance.{member, mfd_service_types, is_in, response_relevant}
use yachtsense_link_emulator.Dns.Filter.{
  RelayReason, filter_dns, filter_questions, forwards, packet_hosts,
}
use yachtsense_link_emulator.Engine.Observe.{
  Table, lookup, store, remove_at, Seen, EngineState, observe,
}
use yachtsense_link_emulator.Engine.Reply.{unicast_reply}
use yachtsense_link_emulator.Engine.Loop.{
  Endpoint, Engine, Shared, LoopState, Received, timeout, cancelled, read_error, packet, Target,
  multicast, sender, Sent, Outside, Round, send, fail, unseen, new_shared, reply_gap, repeat_gap,
  tick, drop_old, is_repeat, remember,
}
use yachtsense_link_emulator.Engine.Relay.{
  relay_all, record_app, names_after_records, names_after, filtered, with_names, relayed_response,
  relayed_query, take_response, take_query, take_message,
}

-- A question for one of the names that the emulator announces
abbrev pub is_own_question : Engine → DnsQuestion → Bool
is_own_question g q =
    is_in q.class
    && (equal q.name http_service
        || (equal q.name browse_type || (equal q.name g.host || equal q.name g.own_instance)))

-- The loop over the questions: whether one is for the emulator, and whether its answer is unicast;
-- the top bit of the class asks for that.
unfoldable pub own_questions : Engine → List DnsQuestion → Bool × Bool → Bool × Bool
unfolding equal
own_questions g [] r = r
own_questions g (q ∷ qs) (own, uni) =
    own_questions g qs (
      if is_own_question g q
      then (true, if leb (2 ^ 15) q.class then true else uni)
      else (own, uni))

-- The answer to a sender, if it can be written
abbrev pub answer : Bytes → Bytes → ℕ → DnsResult Bytes → List Sent
answer through ip port (ok p) = send through p (sender ip port)
answer through ip port (err e) = []

-- The answer to a query for the emulator's names: the last reply and what is handed to the socket,
-- whose error is dropped
unfoldable pub reply :
    Env → Engine → Endpoint → ℕ → Bytes → ℕ → DnsMessage → LoopState → LoopState × List Sent
unfolding own_questions
reply env g ep now ip port m l =
    let (own, uni) = own_questions g m.questions (false, not (port == 5353)) in
    if not m.response && ep.publish && (own && ltb (l.last_reply + reply_gap) now)
    then (
      record l { last_reply = now },
      if uni
          then answer ep.name ip port (unicast_reply env ep.announcement m (not (port == 5353)))
          else send ep.name ep.announcement multicast,
    )
    else (l, [])

abbrev pub quiet : LoopState → Shared → Round
quiet l s = record { loop = l; shared = s; sent = []; goes_on = true }

-- A message that is neither malformed nor repeated
unfoldable pub accept :
    Env
    → Outside
    → Engine
    → Endpoint
    → ℕ
    → Bytes
    → ℕ
    → Bytes
    → DnsMessage
    → LoopState
    → Shared
    → Round
unfolding reply take_message remember
accept env out g ep now ip port p m l s =
    let kept : LoopState = record l {
      seen_packets = remember env now (out.digest p) l.seen_packets;
    } in
    let (replied, answers) = reply env g ep now ip port m kept in
    let (shared, relayed, goes_on) = take_message env out g ep now ip m s in
    record { loop = replied; shared = shared; sent = answers ++ relayed; goes_on = goes_on }

-- What becomes of a packet that is parsed: malformed ones, responses from another port, and repeats
-- are dropped.
abbrev pub take_parsed :
    Env
    → Outside
    → Engine
    → Endpoint
    → ℕ
    → Bytes
    → ℕ
    → Bytes
    → DnsResult DnsMessage
    → LoopState
    → Shared
    → Round
take_parsed env out g ep now ip port p (err e) l s = quiet l s
take_parsed env out g ep now ip port p (ok m) l s =
    if m.response && not (port == 5353)
    then quiet l s
    else if is_repeat now (lookup (out.digest p) l.seen_packets)
    then quiet l s
    else accept env out g ep now ip port p m l s

-- A packet within the limit of a hundred in a second
unfoldable pub take_packet :
    Env → Outside → Engine → Endpoint → ℕ → Bytes → ℕ → Bytes → LoopState → Shared → Round
take_packet env out g ep now ip port p l s =
    take_parsed env out g ep now ip port p (parse_dns_message env p) l s

-- One round of `readLoop`. A packet is read into a buffer of 9000 bytes.
unfoldable pub round : Env → Outside → Engine → Endpoint → ℕ → Received → LoopState → Shared → Round
unfolding tick member
round env out g ep now timeout l s = quiet l s
round env out g ep now cancelled l s = record { loop = l; shared = s; sent = []; goes_on = false }
round env out g ep now read_error l s = record {
  loop = l;
  shared = fail s;
  sent = [];
  goes_on = false;
}
round env out g ep now (packet ip port p) l s =
    if member g.local_ips ip
    then quiet l s
    else if ltb 100 (tick now l).count
    then quiet (tick now l) s
    else take_packet env out g ep now ip port p (tick now l) s
