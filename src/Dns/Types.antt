-- ===== src/Dns/Types.antt =====
-- The data types and constants of dns.go. A number of w bits is a number below 2 ^ w.
use yachtsense_link_emulator.Common.{ℕ, Bool, List, Result}
use yachtsense_link_emulator.Common.Bytes.{Bytes, codes}

-- `errors.New` of dns.go; `out_of_fuel` is the model's own and is shown never to be returned.
pub data DnsError : Type 0 where
  invalid_label name_too_long invalid_pointer unterminated_name truncated_pointer : DnsError
  forward_pointer oversize_rdata oversize_txt ipv4_required short_header : DnsError
  unsupported_opcode too_many_entries short_question short_rr short_rdata short_srv : DnsError
  invalid_target invalid_a invalid_aaaa invalid_txt response_too_large out_of_fuel : DnsError

abbrev pub DnsResult : Type 0 → Type 0
DnsResult = Result DnsError

-- What the model leaves to the Go library and run time: lower case beyond ASCII, the text of an
-- IPv6 address, and which key a `range` over a map of this many keys meets first.
pub record Env : Type 0 where
  pub unicode_lower : Bytes → Bytes
  pub ipv6_text : Bytes → Bytes
  pub first_key : ℕ → ℕ

pub record DnsQuestion : Type 0 where
  pub name : Bytes
  pub typ : ℕ
  pub class : ℕ
  pub wire : Bytes

pub record DnsRecord : Type 0 where
  pub name : Bytes
  pub typ : ℕ
  pub class : ℕ
  pub ttl : ℕ
  pub target : Bytes
  pub port : ℕ
  pub address : Bytes
  pub rdata : Bytes
  pub wire : Bytes
  pub target_wire : Bytes

pub record DnsMessage : Type 0 where
  pub id : ℕ
  pub flags : ℕ
  pub response : Bool
  pub questions : List DnsQuestion
  pub records : List DnsRecord

abbrev pub http_service : Bytes
http_service = codes "_http._tcp.local"

abbrev pub browse_type : Bytes
browse_type = codes "_services._dns-sd._udp.local"

abbrev pub rtsp_service : Bytes
rtsp_service = codes "_rtsp._tcp.local"

abbrev pub rym_service : Bytes
rym_service = codes "_rym_rrc._tcp.local"

abbrev pub raydb_service : Bytes
raydb_service = codes "_raydb._tcp.local"
