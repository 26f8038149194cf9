-- ===== src/Engine/Reply.antt =====
-- `unicastReply`: the announcement as an answer to one sender.
use yachtsense_link_emulator.Common.{
  ◌%◌, ◌^◌, Bool, List, [], ◌∷◌, ◌++◌, ltb, ◌==◌, if◌then◌else◌, length, take, ok, ◌>>=◌,
}
use yachtsense_link_emulator.Common.Bytes.{Bytes}
use yachtsense_link_emulator.Dns.Types.{Env, DnsResult, DnsQuestion, DnsRecord, DnsMessage}
use yachtsense_link_emulator.Dns.Message.Build.{append_uint16, put_uint16, empty_header, append_rr}
use yachtsense_link_emulator.Dns.Message.Parse.{parse_dns_message}

-- The questions of a legacy query, repeated
unfoldable pub append_questions : Bytes → List DnsQuestion → Bytes
unfolding append_uint16
append_questions p [] = p
append_questions p (q ∷ qs) =
    append_questions (append_uint16 (append_uint16 (p ++ q.wire) q.typ) (q.class % 2 ^ 15)) qs

-- The data of a record, its names written out
abbrev pub plain_data : DnsRecord → Bytes
plain_data r =
    if r.typ == 12
    then r.target_wire
    else if r.typ == 33
    then take 6 r.rdata ++ r.target_wire
    else r.rdata

unfoldable pub append_answers : Bool → Bytes → List DnsRecord → DnsResult Bytes
unfolding append_rr
append_answers legacy p [] = ok p
append_answers legacy p (r ∷ rs) =
    let class = if legacy then r.class % 2 ^ 15 else r.class in
    let ttl = if legacy then (if ltb 10 r.ttl then 10 else r.ttl) else r.ttl in
    append_rr p r.wire r.typ class ttl (plain_data r) >>= λ q. append_answers legacy q rs

abbrev pub reply_header : DnsMessage → Bool → Bytes
reply_header q legacy =
    let p = put_uint16 empty_header 2 0x8400 in
    if legacy
    then append_questions (put_uint16 (put_uint16 p 0 q.id) 4 (length q.questions % 2 ^ 16))
        q.questions
    else p

-- `unicastReply`
unfoldable pub unicast_reply : Env → Bytes → DnsMessage → Bool → DnsResult Bytes
unfolding append_questions append_answers put_uint16
unicast_reply env announcement q legacy = parse_dns_message env announcement >>= λ m.
    append_answers legacy (put_uint16 (reply_header q legacy) 6 (length m.records % 2 ^ 16))
      m.records
