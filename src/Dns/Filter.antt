-- ===== src/Dns/Filter.antt =====
-- `filterDNS`: what the relay forwards of a message, and `determineRelayMode`.
pub mod Sound
pub mod Queries
pub mod RoundTrip
use yachtsense_link_emulator.Common.{
  ℕ, ◌+◌, ◌%◌, ◌^◌, Bool, true, false, not, ◌&&◌, ◌||◌, List, [], ◌∷◌, ◌++◌, Option, none, some,
  ◌==◌, ltb, if◌then◌else◌, length, take, Result, ok, err, ◌>>=◌,
}
use yachtsense_link_emulator.Common.Bytes.{Bytes, codes, equal}
use yachtsense_link_emulator.Dns.Types.{
  Env, DnsError, DnsResult, DnsQuestion, DnsRecord, DnsMessage, response_too_large,
}
use yachtsense_link_emulator.Dns.Name.{encode_dns_name}
use yachtsense_link_emulator.Dns.Message.Build.{
  append_uint16, append_rr, put_uint16, empty_header, Configuration,
}
use yachtsense_link_emulator.Dns.Cache.{NameCache, has}
use yachtsense_link_emulator.Dns.Relevance.{
  member, raymarine_service_types, allowed_instance, is_in, ptr_permitted, or_has, instance_known,
  response_relevant,
}

-- The wire name that a question is sent with: encoded anew where none was kept
unfoldable pub wire_or_encode : Bytes → Bytes → Bytes
wire_or_encode [] name = elim (encode_dns_name name) [ ok w ↦ w | err e ↦ [] ]
wire_or_encode (b ∷ w) name = b ∷ w

-- The loop over the questions: the packet, the count and the cache
unfoldable pub filter_questions :
    Env → ℕ → List DnsQuestion → Bytes → ℕ → NameCache → Bytes × ℕ × NameCache
unfolding wire_or_encode
filter_questions env now [] p count c = (p, count, c)
filter_questions env now (q ∷ qs) p count c =
    let (known, c') = or_has env now (member raymarine_service_types q.name) q.name c in
    let sent = append_uint16 (append_uint16 (p ++ wire_or_encode q.wire q.name) q.typ) 1 in
    let foreign = filter_questions env now qs p count c in
    let unknown = filter_questions env now qs p count c' in
    let taken = filter_questions env now qs sent (count + 1) c' in
    if not (is_in q.class) then foreign else if known then taken else unknown

-- `packetHosts`: the targets of the permitted SRV records
unfoldable pub packet_hosts : Env → List DnsRecord → List Bytes
packet_hosts env [] = []
packet_hosts env (r ∷ rs) =
    if r.typ == 33 && allowed_instance env r.name
    then r.target ∷ packet_hosts env rs
    else packet_hosts env rs

-- The emulator's own records, and records of another class, are skipped.
unfoldable pub is_skipped : Bytes → Bytes → DnsRecord → Bool
is_skipped own_host own_instance r =
    not (is_in r.class)
    || (not (equal own_host []) && equal r.name own_host)
    || (not (equal own_instance []) && (equal r.name own_instance || equal r.target own_instance))

-- `switch r.Type` of `filterDNS`
unfoldable pub allow_record : Env → ℕ → List Bytes → DnsRecord → NameCache → Bool × NameCache
allow_record env now hosts r c =
    let (known, c') = has env now r.name c in
    if r.typ == 12
    then (ptr_permitted env r, c)
    else if r.typ == 33 || r.typ == 16
    then instance_known env now r c
    else if r.typ == 1 || r.typ == 28
    then (known || member hosts r.name, c')
    else (false, c)

-- One round's guard: whether the record is forwarded, and the cache behind it
unfoldable pub forwards :
    Env → ℕ → List Bytes → Bytes → Bytes → DnsRecord → NameCache → Bool × NameCache
forwards env now hosts own_host own_instance r c =
    if is_skipped own_host own_instance r then (false, c) else allow_record env now hosts r c

-- The data that is sent: names inside it are the retained uncompressed ones.
unfoldable pub sent_data : DnsRecord → Bytes
sent_data r =
    if r.typ == 12
    then r.target_wire
    else if r.typ == 33
    then take 6 r.rdata ++ r.target_wire
    else r.rdata

-- The loop over the records
unfoldable pub filter_records :
    Env
    → ℕ
    → List Bytes
    → Bytes
    → Bytes
    → List DnsRecord
    → Bytes
    → ℕ
    → NameCache
    → DnsResult (Bytes × ℕ × NameCache)
filter_records env now hosts own_host own_instance [] p count c = ok (p, count, c)
filter_records env now hosts own_host own_instance (r ∷ rs) p count c =
    let (allow, c') = forwards env now hosts own_host own_instance r c in
    let dropped = filter_records env now hosts own_host own_instance rs p count c' in
    let kept = append_rr p r.wire r.typ r.class r.ttl (sent_data r) >>= λ q.
    filter_records env now hosts own_host own_instance rs q (count + 1) c' in
    if allow then kept else dropped

-- What stands behind the loops of `filterDNS`; no packet where nothing is left
unfoldable pub finish_filter : Bytes → ℕ → NameCache → DnsResult (Option Bytes × NameCache)
finish_filter p count c =
    if count == 0
    then ok (none, c)
    else if ltb 9000 (length p)
    then err response_too_large
    else ok (some p, c)

-- `filterDNS` of a response
unfoldable pub filter_response :
    Env → ℕ → List DnsRecord → Bytes → Bytes → NameCache → DnsResult (Option Bytes × NameCache)
unfolding filter_records finish_filter packet_hosts
filter_response env now rs own_host own_instance c =
    filter_records env now (packet_hosts env rs) own_host own_instance rs
      (put_uint16 empty_header 2 0x8400) 0 (response_relevant env now rs c).1
    >>= λ (p, count, c'). finish_filter (put_uint16 p 6 (count % 2 ^ 16)) count c'

-- `filterDNS` of a query
unfoldable pub filter_query :
    Env → ℕ → List DnsQuestion → NameCache → DnsResult (Option Bytes × NameCache)
unfolding filter_questions finish_filter
filter_query env now qs c =
    let (p, count, c') = filter_questions env now qs empty_header 0 c in
    finish_filter (put_uint16 p 4 (count % 2 ^ 16)) count c'

-- `filterDNS`
unfoldable pub filter_dns :
    Env → ℕ → DnsMessage → Bytes → Bytes → NameCache → DnsResult (Option Bytes × NameCache)
unfolding filter_response filter_query
filter_dns env now m own_host own_instance c =
    if m.response
    then filter_response env now m.records own_host own_instance c
    else filter_query env now m.questions c

-- The reasons that `determineRelayMode` gives
pub data RelayReason : Type 0 where
  same_interface relay_disabled relay_selected avahi_selected automatic_relay : RelayReason

-- `determineRelayMode`
unfoldable pub determine_relay_mode : Configuration → Bool → Bool × RelayReason
determine_relay_mode c distinct =
    if not distinct
    then (false, same_interface)
    else if equal c.relay_mode (codes "disabled")
    then (false, relay_disabled)
    else if equal c.relay_mode (codes "force")
    then (true, relay_selected)
    else if c.existing_reflector
    then (false, avahi_selected)
    else (true, automatic_relay)
