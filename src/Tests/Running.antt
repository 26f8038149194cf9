-- ===== src/Tests/Running.antt =====
-- Examples of the running engine.
use yachtsense_link_emulator.Common.{
  List, some, ◌%◌, ◌^◌, ◌*◌, ◌≤◌, ◌<◌, true, false, [], ◌∷◌, ◌++◌, length, All, ok, ◌≡◌, refl, ◌⊎◌,
  arith, sym, subst,
}
use yachtsense_link_emulator.Common.Bytes.{
  Bytes, codes, equal, split, to_lower, is_ascii, trim_suffix_byte, join,
}
use yachtsense_link_emulator.Dns.Types.{DnsQuestion, Env, rtsp_service, rym_service, raydb_service}
use yachtsense_link_emulator.Dns.Name.{
  encode_dns_name, encode_labels, decode_name, decode_level, decode_loop, finish_name,
  normalize_dns_name,
}
use yachtsense_link_emulator.Dns.Message.Build.{append_uint16, put_uint16, uint16_bytes}
use yachtsense_link_emulator.Dns.Message.Parse.{
  parse_dns_message, parse_entries, parse_question, uint16_at, uint32_at,
}
use yachtsense_link_emulator.Dns.Cache.{find, second, has, has_entry}
use yachtsense_link_emulator.Dns.Relevance.{member, or_has, is_in}
use yachtsense_link_emulator.Dns.Filter.Sound.{Selects}
use yachtsense_link_emulator.Dns.Filter.Queries.{
  IsAsked, query_header, all_asked, filter_query-sends,
}
use yachtsense_link_emulator.Dns.Filter.{
  automatic_relay, filter_dns, filter_query, filter_questions, finish_filter,
}
use yachtsense_link_emulator.Engine.Observe.{lookup, store, remove, remove_at}
use yachtsense_link_emulator.Engine.Receive.{round, take_packet, accept, reply, own_questions}
use yachtsense_link_emulator.Engine.Receive.Flow.{IsCaused, round-IsCaused}
use yachtsense_link_emulator.Engine.Receive.Repeats.{IsQuiet, round-round}
use yachtsense_link_emulator.Engine.Receive.Ends.{Tells, round-Tells}
use yachtsense_link_emulator.Engine.Announce.{
  announce_interval, announce_interval-le, append_browse, browse_packet, start, announce_through,
  browse, browse_tick, awake, initial, announce_tick, close,
}
use yachtsense_link_emulator.Engine.Announce.Told.{IsAnnounced, start-IsAnnounced}
use yachtsense_link_emulator.Engine.Announce.Goodbye.{TakenBack, IsGoodbye, close-TakenBack}
use yachtsense_link_emulator.Engine.Schedule.{
  System, started, turn, wake_turn, work_at, workers_at, here, next, receives, wakes, IsSafe,
}
use yachtsense_link_emulator.Engine.Schedule.Safe.{Reach-IsSafe}
use yachtsense_link_emulator.Engine.Loop.{
  new_shared, Endpoint, Engine, Shared, LoopState, Received, timeout, cancelled, read_error, packet,
  Outside, Round, tick, remember, drop_old,
}
use yachtsense_link_emulator.Engine.Relay.{take_message, take_query, record_app, names_after}

abbrev env : Env
env = record { unicode_lower = λ s. s; ipv6_text = λ s. []; first_key = λ n. 0 }

abbrev boat : Endpoint
boat = record {
  name = codes "br-lan";
  publish = true;
  announcement = codes "here";
  goodbye = codes "gone";
}

abbrev wifi : Endpoint
wifi = record { name = codes "wlan0"; publish = false; announcement = []; goodbye = [] }

abbrev engine : Engine
engine = record {
  endpoints = boat ∷ wifi ∷ [];
  axiom_endpoint = boat;
  relay = true;
  local_ips = codes "198.18.0.1" ∷ codes "192.168.4.1" ∷ [];
  host = codes "yachtsense-main.local";
  own_instance = codes "yachtsense._http._tcp.local";
}

abbrev outside : Outside
outside = record { digest = λ p. p; can_send = λ n. true; order = λ l. l }

abbrev fresh_loop : LoopState
fresh_loop = record { window = 0; count = 0; seen_packets = []; last_reply = 0 }

abbrev quiet_state : Shared
quiet_state = new_shared true (true, automatic_relay)

-- The questions for the MFD's services, as an app asks them
browse-parsed :
    parse_dns_message env browse_packet
    ≡ ok (record {
      id = 0;
      flags = 0;
      response = false;
      questions =
          record {
            name = rtsp_service;
            typ = 12;
            class = 1;
            wire = 5 ∷ codes "_rtsp" ++ 4 ∷ codes "_tcp" ++ 5 ∷ codes "local" ++ 0 ∷ [];
          }
          ∷ record {
            name = rym_service;
            typ = 12;
            class = 1;
            wire = 8 ∷ codes "_rym_rrc" ++ 4 ∷ codes "_tcp" ++ 5 ∷ codes "local" ++ 0 ∷ [];
          }
          ∷ record {
            name = raydb_service;
            typ = 12;
            class = 1;
            wire = 6 ∷ codes "_raydb" ++ 4 ∷ codes "_tcp" ++ 5 ∷ codes "local" ++ 0 ∷ [];
          }
          ∷ [];
      records = [];
    })
unfolding browse_packet append_browse append_uint16 uint16_bytes put_uint16 encode_dns_name
    encode_labels split equal parse_dns_message parse_entries parse_question decode_name
    decode_level decode_loop finish_name normalize_dns_name uint16_at uint32_at to_lower is_ascii
    trim_suffix_byte join
browse-parsed = refl

abbrev asked : Received
asked = packet (codes "192.168.4.20") 5353 browse_packet

abbrev asked_round : Round
asked_round = round env outside engine wifi 7 asked fresh_loop quiet_state

asked-relayed : length asked_round.sent ≡ 1
unfolding round tick take_packet accept remember drop_old remove_at store remove lookup reply
    own_questions take_message take_query record_app names_after filter_dns filter_query
    filter_questions finish_filter or_has has has_entry is_in member browse_packet append_browse
    append_uint16 uint16_bytes put_uint16 encode_dns_name encode_labels split equal
    parse_dns_message parse_entries parse_question decode_name decode_level decode_loop finish_name
    normalize_dns_name uint16_at uint32_at to_lower is_ascii trim_suffix_byte join
asked-relayed = refl

round-IsCaused_example : All (IsCaused env engine wifi 7 asked) asked_round.sent
round-IsCaused_example = round-IsCaused env outside engine wifi 7 asked fresh_loop quiet_state

round-Tells_example :
    Tells outside quiet_state asked_round.goes_on asked_round.shared
    ⊎ ((asked ≡ cancelled) × (asked_round.goes_on ≡ false) × (asked_round.shared ≡ quiet_state))
    ⊎ ((asked ≡ read_error) × (asked_round.goes_on ≡ false) × (asked_round.shared.failed ≡ true))
round-Tells_example = round-Tells env outside engine wifi 7 asked fresh_loop quiet_state

round-round_example : IsQuiet asked_round.shared (
    round env outside engine wifi 500000000
      (packet (codes "192.168.4.21") 5353 browse_packet)
      asked_round.loop
      asked_round.shared)
round-round_example =
    round-round env outside engine wifi 7 500000000 (codes "192.168.4.20") (codes "192.168.4.21")
      5353 5353 browse_packet fresh_loop quiet_state asked_round.shared
      (subst (λ n. 0 < n) (sym asked-relayed) (omega arith)) (omega arith)

announce_interval-le_example :
    (second ≤ announce_interval 120)
    × (announce_interval 120 ≤ 60 * second)
    × (2 * announce_interval 120 ≤ 120 * second)
announce_interval-le_example = announce_interval-le 120 (omega arith)

start-IsAnnounced_example :
    IsAnnounced outside engine quiet_state (start outside engine quiet_state)
    × IsAnnounced outside engine quiet_state (awake outside engine initial quiet_state)
    × IsAnnounced outside engine quiet_state (awake outside engine announce_tick quiet_state)
start-IsAnnounced_example = start-IsAnnounced outside engine quiet_state

close-TakenBack_example :
    All (TakenBack outside (close outside (boat ∷ wifi ∷ []))) (boat ∷ wifi ∷ [])
    × All (IsGoodbye (boat ∷ wifi ∷ [])) (close outside (boat ∷ wifi ∷ []))
close-TakenBack_example = close-TakenBack outside (boat ∷ wifi ∷ [])

-- The loop of the second endpoint takes a turn, then the announcing goroutine, then that loop again.
abbrev after_three : System
after_three = turn env outside engine 9 timeout 1 (
    wake_turn outside engine browse_tick
      (turn env outside engine 7 asked 1 (started outside engine true automatic_relay 0)))

Reach-IsSafe_example : IsSafe env engine after_three
Reach-IsSafe_example = Reach-IsSafe env engine outside true automatic_relay 0 after_three (
    next
      (next (next here (receives outside 7 asked 1 (started outside engine true automatic_relay 0)))
        (wakes outside browse_tick
          (turn env outside engine 7 asked 1 (started outside engine true automatic_relay 0))))
      (receives outside 9 timeout 1 (
        wake_turn outside engine browse_tick
          (turn env outside engine 7 asked 1 (started outside engine true automatic_relay 0)))))

-- In all two reads and four packets: the announcement, the questions twice, and the app's questions,
-- relayed.
sent-in-all : length after_three.history ≡ 6
unfolding work_at workers_at start announce_through browse awake round tick take_packet accept
    remember drop_old remove_at store remove lookup reply own_questions take_message take_query
    record_app names_after filter_dns filter_query filter_questions finish_filter or_has has
    has_entry is_in member browse_packet append_browse append_uint16 uint16_bytes put_uint16
    encode_dns_name encode_labels split equal parse_dns_message parse_entries parse_question
    decode_name decode_level decode_loop finish_name normalize_dns_name uint16_at uint32_at to_lower
    is_ascii trim_suffix_byte join
sent-in-all = refl

-- The questions with another one, which the relay leaves out, and the wish for a unicast answer
abbrev asked_questions : List DnsQuestion
asked_questions =
    record {
      name = rtsp_service;
      typ = 12;
      class = 0x8001;
      wire = 5 ∷ codes "_rtsp" ++ 4 ∷ codes "_tcp" ++ 5 ∷ codes "local" ++ 0 ∷ [];
    }
    ∷ record {
      name = codes "printer.local";
      typ = 1;
      class = 1;
      wire = 7 ∷ codes "printer" ++ 5 ∷ codes "local" ++ 0 ∷ [];
    }
    ∷ []

abbrev asked_packet : Bytes
asked_packet =
    0 ∷ 0 ∷ 0 ∷ 0 ∷ 0 ∷ 1 ∷ 0 ∷ 0 ∷ 0 ∷ 0 ∷ 0 ∷ 0 ∷ 5 ∷ codes "_rtsp"
    ++ 4 ∷ codes "_tcp"
    ++ 5 ∷ codes "local"
    ++ 0 ∷ 0 ∷ 12 ∷ 0 ∷ 1 ∷ []

asked-filtered : filter_query env 7 asked_questions [] ≡ ok (some asked_packet, [])
unfolding filter_query filter_questions finish_filter or_has has has_entry is_in member
    append_uint16 uint16_bytes put_uint16 equal normalize_dns_name to_lower is_ascii
    trim_suffix_byte find
asked-filtered = refl

filter_query-sends_example :
    (ks : List DnsQuestion) × Selects (IsAsked env 7 []) asked_questions ks
    × (asked_packet ≡ query_header (length ks % 2 ^ 16) ++ all_asked ks)
    × (0 < length ks)
    × (length asked_packet ≤ 9000)
filter_query-sends_example =
    filter_query-sends env 7 asked_questions [] [] asked_packet asked-filtered
