-- ===== src/Tests.antt =====
-- Examples: the theorems at concrete inputs, and evaluations of the definitions.
mod Service
mod Running
mod Router
mod Web
use yachtsense_link_emulator.Common.{
  ℕ, ◌+◌, ◌*◌, ◌%◌, ◌^◌, ◌≤◌, ◌<◌, zero, suc, Bool, true, false, ◌&&◌, Bool-cases, List, [], ◌∷◌,
  ◌++◌, Option, none, some, ltb, leb, length, drop, All, Result, ok, err, ◌≡◌, ◌≢◌, refl, arith,
  ◌⊎◌, inl, inr, ltb→lt, ◌↔◌,
}
use yachtsense_link_emulator.Common.Bytes.{
  Bytes, codes, equal, has_suffix, split, to_lower, is_ascii, trim_suffix_byte, join,
}
use yachtsense_link_emulator.Common.Int.{pos}
use yachtsense_link_emulator.Dns.Types.{
  out_of_fuel, Env, DnsRecord, DnsMessage, http_service, rtsp_service,
}
use yachtsense_link_emulator.Dns.Name.{
  Decoded, encode_dns_name, encode_labels, decode_name, decode_level, decode_loop, finish_name,
  normalize_dns_name,
}
use yachtsense_link_emulator.Dns.Name.Decode.{decode_name-Sound, decode_name-ne-out_of_fuel, Sound}
use yachtsense_link_emulator.Dns.Name.RoundTrip.{decode_name-encode_dns_name, decode_name-retained}
use yachtsense_link_emulator.Dns.Message.Parse.{
  parse_dns_message, parse_record, parse_rdata, parse_entries, parse_question, uint16_at, uint32_at,
  target_result,
}
use yachtsense_link_emulator.Common.Bytes.{itoa, itoa_loop}
use yachtsense_link_emulator.Dns.Name.Labels.{IsWire}
use yachtsense_link_emulator.Dns.Message.Parse.{Rdata, ipv4_text}
use yachtsense_link_emulator.Dns.Message.Records.{rr_head, parse_record-rr_head}
use yachtsense_link_emulator.Dns.Message.Content.{IsBytes, IsParsed, parse_dns_message-IsParsed}
use yachtsense_link_emulator.Dns.Cache.{NameCache, has, add_ttl, second, clamp_ttl}
use yachtsense_link_emulator.Dns.Cache.Laws.{
  length-add_ttl-le, has-add_ttl, has-add_ttl_goodbye, has-has,
}
use yachtsense_link_emulator.Dns.Message.Build.{
  append_rr, append_uint16, append_uint32, put_uint16, uint16_bytes, uint32_bytes,
}
use yachtsense_link_emulator.Dns.Relevance.{
  member, service_for_name, service_suffix, is_in, ptr_permitted, or_has, relevant_query_names,
  learn_instances, instance_known, learn_host, learn_hosts, response_relevant, allowed_instance,
}
use yachtsense_link_emulator.Dns.Filter.{
  packet_hosts, is_skipped, allow_record, forwards, sent_data, filter_records, finish_filter,
  filter_response,
}
use yachtsense_link_emulator.Dns.Filter.Sound.{
  Selects, IsPermitted, all_sent, response_header, filter_response-sends,
}
use yachtsense_link_emulator.Dns.Filter.RoundTrip.{CarriesAll, parse-filter_response}

abbrev env : Env
env = record { unicode_lower = λ s. s; ipv6_text = λ s. []; first_key = λ n. 0 }

abbrev rtsp_wire : Bytes
rtsp_wire = 5 ∷ codes "_rtsp" ++ 4 ∷ codes "_tcp" ++ 5 ∷ codes "local" ++ 0 ∷ []

-- A pointer record that names its target's service by a compressed name
abbrev packet : Bytes
packet =
    0 ∷ 0 ∷ 0x84 ∷ 0 ∷ 0 ∷ 0 ∷ 0 ∷ 1 ∷ 0 ∷ 0 ∷ 0 ∷ 0 ∷ rtsp_wire
    ++ 0 ∷ 12 ∷ 0 ∷ 1 ∷ 0 ∷ 0 ∷ 0 ∷ 120 ∷ 0 ∷ 6 ∷ 3 ∷ codes "mfd"
    ++ 0xc0 ∷ 12 ∷ []

abbrev pointer : DnsRecord
pointer = record {
  name = rtsp_service;
  typ = 12;
  class = 1;
  ttl = 120;
  target = codes "mfd._rtsp._tcp.local";
  port = 0;
  address = [];
  rdata = 3 ∷ codes "mfd" ++ 0xc0 ∷ 12 ∷ [];
  wire = rtsp_wire;
  target_wire = 3 ∷ codes "mfd" ++ rtsp_wire;
}

abbrev message : DnsMessage
message = record { id = 0; flags = 0x8400; response = true; questions = []; records = pointer ∷ [] }

parse-packet : parse_dns_message env packet ≡ ok message
unfolding parse_dns_message parse_entries parse_record parse_rdata target_result decode_name
    decode_level decode_loop finish_name normalize_dns_name uint16_at uint32_at to_lower is_ascii
    trim_suffix_byte join
parse-packet = refl

abbrev below : ℕ → Bytes → Bool
below n [] = true
below n (b ∷ s) = ltb b n && below n s

below-All : (n : ℕ) (s : Bytes) → below n s ≡ true → All (λ b. b < n) s
below-All n [] h = tt
below-All n (b ∷ s) h = elim (Bool-cases (ltb b n)) [
  | inl less ↦ (ltb→lt b n less, below-All n s (rw less at h))
  | inr more ↦ absurd (cc (rw more at h))
]

packet-IsBytes : IsBytes packet
packet-IsBytes = below-All 256 packet refl

-- What the relay sends of this packet: the name is written out.
abbrev sent_packet : Bytes
sent_packet =
    0 ∷ 0 ∷ 0x84 ∷ 0 ∷ 0 ∷ 0 ∷ 0 ∷ 1 ∷ 0 ∷ 0 ∷ 0 ∷ 0 ∷ rtsp_wire
    ++ 0 ∷ 12 ∷ 0 ∷ 1 ∷ 0 ∷ 0 ∷ 0 ∷ 120 ∷ 0 ∷ 22 ∷ 3 ∷ codes "mfd"
    ++ rtsp_wire

abbrev learned_names : NameCache
learned_names = (response_relevant env 0 (pointer ∷ []) []).1

sent-packet :
    filter_response env 0 message.records (codes "own.local") (codes "own._http._tcp.local") []
    ≡ ok (some sent_packet, learned_names)
unfolding filter_response filter_records finish_filter forwards is_skipped allow_record sent_data
    packet_hosts response_relevant learn_instances learn_hosts learn_host instance_known
    allowed_instance relevant_query_names or_has ptr_permitted is_in member service_for_name
    service_suffix append_rr append_uint16 append_uint32 put_uint16 uint16_bytes uint32_bytes
    normalize_dns_name to_lower is_ascii trim_suffix_byte equal has_suffix
sent-packet = refl

parse-filter_response_example :
    (ks : List DnsRecord) × (sent : DnsMessage) × Selects
      (IsPermitted env 0
        (packet_hosts env message.records)
        (codes "own.local")
        (codes "own._http._tcp.local")
        learned_names)
      message.records
      ks
    × (parse_dns_message env sent_packet ≡ ok sent)
    × (sent.response ≡ true)
    × (sent.questions ≡ [])
    × CarriesAll ks sent.records
parse-filter_response_example =
    parse-filter_response env 0 packet sent_packet message (codes "own.local")
      (codes "own._http._tcp.local") [] learned_names packet-IsBytes parse-packet sent-packet

filter_response-sends_example :
    (ks : List DnsRecord) × Selects
      (IsPermitted env 0
        (packet_hosts env message.records)
        (codes "own.local")
        (codes "own._http._tcp.local")
        learned_names)
      message.records
      ks
    × All (λ r. length (sent_data r) ≤ 65535) ks
    × (sent_packet ≡ response_header (length ks % 2 ^ 16) ++ all_sent ks)
    × (0 < length ks)
    × (length sent_packet ≤ 9000)
filter_response-sends_example =
    filter_response-sends env 0 message.records (codes "own.local") (codes "own._http._tcp.local")
      [] learned_names sent_packet sent-packet

encode-rtsp : encode_dns_name rtsp_service ≡ ok rtsp_wire
unfolding encode_dns_name encode_labels split trim_suffix_byte equal
encode-rtsp = refl

decode_name-encode_dns_name_example :
    decode_name env ((1 ∷ 2 ∷ []) ++ (rtsp_wire ++ 9 ∷ [])) 2 0
    ≡ ok (record {
      name = normalize_dns_name env rtsp_service;
      next = 2 + length rtsp_wire;
      wire = rtsp_wire;
    })
decode_name-encode_dns_name_example =
    decode_name-encode_dns_name env rtsp_service rtsp_wire (1 ∷ 2 ∷ []) (9 ∷ []) 0 encode-rtsp
      (omega arith)

abbrev decoded_target : Decoded
decoded_target = record {
  name = codes "mfd._rtsp._tcp.local";
  next = 46;
  wire = 3 ∷ codes "mfd" ++ rtsp_wire;
}

decode-target : decode_name env packet 40 0 ≡ ok decoded_target
unfolding decode_name decode_level decode_loop finish_name normalize_dns_name to_lower is_ascii
    trim_suffix_byte join
decode-target = refl

decode_name-Sound_example : Sound packet 40 decoded_target
decode_name-Sound_example = decode_name-Sound env packet 40 0 decoded_target decode-target

decode_name-retained_example :
    (name : Bytes) × (decode_name env (decoded_target.wire ++ []) 0 12
      ≡ ok (record { name = name; next = length decoded_target.wire; wire = decoded_target.wire }))
decode_name-retained_example =
    decode_name-retained env packet [] 40 0 12 decoded_target decode-target (omega arith)

-- A pointer to itself
decode_name-ne-out_of_fuel_example : decode_name env (0xc0 ∷ 0 ∷ []) 0 0 ≢ err out_of_fuel
decode_name-ne-out_of_fuel_example = decode_name-ne-out_of_fuel env (0xc0 ∷ 0 ∷ []) 0 0

parse_dns_message-IsParsed_example : All IsParsed message.records × (length message.records ≤ 1024)
parse_dns_message-IsParsed_example =
    parse_dns_message-IsParsed env packet message packet-IsBytes parse-packet

length-add_ttl-le_example : length (add_ttl env 0 (codes "mfd.local") 120 []) ≤ 1024
length-add_ttl-le_example = length-add_ttl-le env 0 (codes "mfd.local") 120 [] (omega arith)

mfd-name : normalize_dns_name env (codes "MFD.local.") ≡ codes "mfd.local"
unfolding normalize_dns_name to_lower is_ascii trim_suffix_byte
mfd-name = refl

mfd-named : normalize_dns_name env (codes "MFD.local.") ≢ []
mfd-named h = absurd (cc (mfd-name))

has-add_ttl_example :
    (has env 7 (codes "MFD.local.") (add_ttl env 5 (codes "MFD.local.") 4000 [])).0
    ≡ leb 7 (5 + clamp_ttl 4000 * second)
has-add_ttl_example = has-add_ttl env 5 7 (codes "MFD.local.") 4000 [] mfd-named (omega arith)

has-add_ttl_goodbye_example :
    (has env 5
      (codes "MFD.local.")
      (add_ttl env 5 (codes "MFD.local.") 0 ((codes "mfd.local", 90) ∷ []))).0
    ≡ false
has-add_ttl_goodbye_example =
    has-add_ttl_goodbye env 5 5 (codes "MFD.local.") ((codes "mfd.local", 90) ∷ []) mfd-named

has-has_example :
    (has env 9 (codes "a") (has env 8 (codes "a") ((codes "a", 7) ∷ [])).1).0
    ≡ (has env 9 (codes "a") ((codes "a", 7) ∷ [])).0
has-has_example = has-has env 8 9 (codes "a") (codes "a") ((codes "a", 7) ∷ []) (omega arith)
