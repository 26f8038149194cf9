-- ===== src/Dns/Message/Parse.antt =====
-- Reading messages: `parseDNSMessage`.
use yachtsense_link_emulator.Common.{
  ℕ, zero, suc, ◌+◌, ◌*◌, ◌/◌, ◌%◌, ◌^◌, Bool, not, ◌||◌, List, [], ◌∷◌, ◌++◌, ltb, leb, ◌==◌,
  if◌then◌else◌, length, take, drop, ok, err, ◌>>=◌, ◌>>◌, refuse_if,
}
use yachtsense_link_emulator.Common.Bytes.{Bytes, itoa}
use yachtsense_link_emulator.Dns.Types.{
  Env, DnsResult, DnsQuestion, DnsRecord, DnsMessage, short_header, unsupported_opcode,
  too_many_entries, short_question, short_rr, short_rdata, short_srv, invalid_target, invalid_a,
  invalid_aaaa, invalid_txt,
}
use yachtsense_link_emulator.Dns.Name.{Decoded, byte_at, decode_name}

-- `binary.BigEndian.Uint16(p[off:])`, where the code has checked the length
unfoldable pub uint16_at : Bytes → ℕ → ℕ
uint16_at p off = byte_at p off * 256 + byte_at p (off + 1)

-- `binary.BigEndian.Uint32(p[off:])`
unfoldable pub uint32_at : Bytes → ℕ → ℕ
uint32_at p off =
    byte_at p off * 2 ^ 24
    + byte_at p (off + 1) * 2 ^ 16
    + byte_at p (off + 2) * 256
    + byte_at p (off + 3)

-- The loop over a TXT record: `pending` bytes of the current item are still to be skipped, and the
-- item must not run past the data.
unfoldable pub is_txt : ℕ → Bytes → Bool
is_txt pending [] = pending == 0
is_txt zero (l ∷ rest) = is_txt l rest
is_txt (suc pending) (c ∷ rest) = is_txt pending rest

-- `net.IP(data).String()` of 4 bytes
unfoldable pub ipv4_text : Bytes → Bytes
unfolding itoa
ipv4_text ip =
    itoa (byte_at ip 0)
    ++ b'.' ∷ itoa (byte_at ip 1)
    ++ b'.' ∷ itoa (byte_at ip 2)
    ++ b'.' ∷ itoa (byte_at ip 3)

-- What `parseDNSMessage` reads out of a record's data
pub record Rdata : Type 0 where
  pub target : Bytes
  pub port : ℕ
  pub address : Bytes
  pub target_wire : Bytes

abbrev pub no_fields : Rdata
no_fields = record { target = []; port = 0; address = []; target_wire = [] }

-- `decodeName` for a target: every error becomes "invalid PTR/SRV RDATA".
unfoldable pub target_result : ℕ → ℕ → DnsResult Decoded → DnsResult Rdata
target_result end port (ok d) =
    if d.next == end
    then ok (record { target = d.name; port = port; address = []; target_wire = d.wire })
    else err invalid_target
target_result end port (err e) = err invalid_target

-- `switch r.Type` of `parseDNSMessage`, on the `n` bytes from `off` on
unfoldable pub parse_rdata : Env → Bytes → ℕ → ℕ → ℕ → DnsResult Rdata
parse_rdata env p typ off n =
    if typ == 12
    then target_result (off + n) 0 (decode_name env p off 0)
    else if typ == 33
    then (if ltb n 7
        then err short_srv
        else target_result (off + n) (uint16_at p (off + 4)) (decode_name env p (off + 6) 0))
    else if typ == 1
    then (if n == 4
        then ok (record no_fields { address = ipv4_text (take n (drop off p)) })
        else err invalid_a)
    else if typ == 28
    then (if n == 16
        then ok (record no_fields { address = env.ipv6_text (take n (drop off p)) })
        else err invalid_aaaa)
    else if typ == 16
    then (if is_txt 0 (take n (drop off p)) then ok no_fields else err invalid_txt)
    else ok no_fields

-- One round of the loop over the questions: the question and the offset behind it
unfoldable pub parse_question : Env → Bytes → ℕ → DnsResult (DnsQuestion × ℕ)
parse_question env p off = do
  d ← decode_name env p off 0
  refuse_if (ltb (length p) (d.next + 4)) short_question
  ok (
    record {
      name = d.name;
      typ = uint16_at p d.next;
      class = uint16_at p (d.next + 2);
      wire = d.wire;
    },
    d.next + 4,
  )

-- One round of the loop over the records: the record and the offset behind it
unfoldable pub parse_record : Env → Bytes → ℕ → DnsResult (DnsRecord × ℕ)
parse_record env p off = do
  d ← decode_name env p off 0
  let at = d.next
  refuse_if (ltb (length p) (at + 10)) short_rr
  let n = uint16_at p (at + 8)
  let typ = uint16_at p at
  let start = at + 10
  refuse_if (ltb (length p) (start + n)) short_rdata
  f ← parse_rdata env p typ start n
  ok (
    record {
      name = d.name;
      typ = typ;
      class = uint16_at p (at + 2);
      ttl = uint32_at p (at + 4);
      target = f.target;
      port = f.port;
      address = f.address;
      rdata = take n (drop start p);
      wire = d.wire;
      target_wire = f.target_wire;
    },
    start + n,
  )

-- A counted loop that reads entries one behind the other
unfoldable pub parse_entries :
    {A : Type 0} → (ℕ → DnsResult (A × ℕ)) → ℕ → ℕ → DnsResult (List A × ℕ)
parse_entries parse zero off = ok ([], off)
parse_entries parse (suc n) off =
    parse off >>= λ (a, next). parse_entries parse n next >>= λ (rest, end). ok (a ∷ rest, end)

-- `flags & 0x780f != 0`: the opcode or the response code is not 0
abbrev pub has_opcode_or_rcode : ℕ → Bool
has_opcode_or_rcode flags = not (flags / 2048 % 16 == 0) || not (flags % 16 == 0)

-- `parseDNSMessage`
unfoldable pub parse_dns_message : Env → Bytes → DnsResult DnsMessage
parse_dns_message env p = do
  refuse_if (ltb (length p) 12) short_header
  let flags = uint16_at p 2
  refuse_if (has_opcode_or_rcode flags) unsupported_opcode
  let q = uint16_at p 4
  let nr = uint16_at p 6 + uint16_at p 8 + uint16_at p 10
  refuse_if (ltb 1024 (q + nr)) too_many_entries
  (questions, off) ← parse_entries (parse_question env p) q 12
  (records, end) ← parse_entries (parse_record env p) nr off
  ok (record {
    id = uint16_at p 0;
    flags = flags;
    response = leb 32768 flags;
    questions = questions;
    records = records;
  })
