-- ===== src/Dns/Message/Build.antt =====
-- Writing messages.
use yachtsense_link_emulator.Common.{
  ℕ, ◌+◌, ◌/◌, ◌%◌, ◌^◌, Bool, List, [], ◌∷◌, ◌++◌, Option, none, some, ltb, ◌==◌, if◌then◌else◌,
  length, take, drop, ok, err, ◌>>=◌,
}
use yachtsense_link_emulator.Common.Bytes.{Bytes, codes, to_lower}
use yachtsense_link_emulator.Dns.Types.{
  Env, DnsResult, oversize_rdata, oversize_txt, ipv4_required, http_service, browse_type,
}
use yachtsense_link_emulator.Dns.Name.{encode_dns_name}

-- `appendUint16` onto the empty slice
unfoldable pub uint16_bytes : ℕ → Bytes
uint16_bytes v = v / 256 % 256 ∷ v % 256 ∷ []

unfoldable pub append_uint16 : Bytes → ℕ → Bytes
unfolding uint16_bytes
append_uint16 p v = p ++ uint16_bytes v

-- `appendUint32` onto the empty slice
unfoldable pub uint32_bytes : ℕ → Bytes
uint32_bytes v = v / 2 ^ 24 % 256 ∷ v / 2 ^ 16 % 256 ∷ v / 256 % 256 ∷ v % 256 ∷ []

unfoldable pub append_uint32 : Bytes → ℕ → Bytes
unfolding uint32_bytes
append_uint32 p v = p ++ uint32_bytes v

-- `binary.BigEndian.PutUint16(p[off:off+2], v)`
unfoldable pub put_uint16 : Bytes → ℕ → ℕ → Bytes
unfolding uint16_bytes
put_uint16 p off v = take off p ++ uint16_bytes v ++ drop (off + 2) p

-- `make([]byte, 12)`
abbrev pub empty_header : Bytes
empty_header = 0 ∷ 0 ∷ 0 ∷ 0 ∷ 0 ∷ 0 ∷ 0 ∷ 0 ∷ 0 ∷ 0 ∷ 0 ∷ 0 ∷ []

-- `appendRR`
unfoldable pub append_rr : Bytes → Bytes → ℕ → ℕ → ℕ → Bytes → DnsResult Bytes
unfolding append_uint16 append_uint32
append_rr p wire typ class ttl rdata =
    if ltb 65535 (length rdata)
    then err oversize_rdata
    else let named = p ++ wire in
      let typed = append_uint16 (append_uint16 named typ) class in
      let timed = append_uint32 typed ttl in
      ok (append_uint16 timed (length rdata % 2 ^ 16) ++ rdata)

-- `appendResourceRecord`
unfoldable pub append_resource_record : Bytes → Bytes → ℕ → ℕ → ℕ → Bytes → DnsResult Bytes
unfolding append_rr
append_resource_record p name typ class ttl rdata = do
  wire ← encode_dns_name name
  append_rr p wire typ class ttl rdata

-- `buildTXTData`
unfoldable pub build_txt_data : List Bytes → DnsResult Bytes
build_txt_data [] = ok []
build_txt_data (v ∷ vs) =
    let rest = build_txt_data vs in
    if ltb 255 (length v) then err oversize_txt else rest >>= λ out. ok (length v ∷ v ++ out)

-- What `buildAnnouncement` reads of the configuration, in the struct's order
pub record Configuration : Type 0 where
  pub axiom_interface : Bytes
  pub axiom_ip : Bytes
  pub remote_interfaces : List Bytes
  pub serial : Bytes
  pub version : Bytes
  pub host_label : Bytes
  pub instance_name : Bytes
  pub health_port : ℕ
  pub dashboard_port : ℕ
  pub mdns_enabled : Bool
  pub web_enabled : Bool
  pub ttl : ℕ
  pub relay_mode : Bytes
  pub existing_reflector : Bool
  pub log_level : Bytes

-- `ip.To4()`: four bytes as they are, and the four bytes of an IPv4-mapped address
unfoldable pub to4 : Bytes → Option Bytes
to4 (a ∷ b ∷ c ∷ d ∷ []) = some (a ∷ b ∷ c ∷ d ∷ [])
to4 (a ∷ b ∷ c ∷ d ∷ e ∷ f ∷ g ∷ h ∷ i ∷ j ∷ k ∷ l ∷ m ∷ n ∷ o ∷ p ∷ []) =
    if (a + b + c + d + e + f + g + h + i + j) == 0
    then (if k == 255 then (if l == 255 then some (m ∷ n ∷ o ∷ p ∷ []) else none) else none)
    else none
to4 _ = none

-- The records of an announcement: name, type, class, data
abbrev pub Entry : Type 0
Entry = Bytes × ℕ × ℕ × Bytes

unfoldable pub append_entries : ℕ → Bytes → List Entry → DnsResult Bytes
append_entries ttl p [] = ok p
append_entries ttl p ((name, typ, class, rdata) ∷ es) =
    append_resource_record p name typ class ttl rdata >>= λ q. append_entries ttl q es

-- `buildAnnouncement`. `mac` is the text of the interface's hardware address, empty where there is
-- none, and `ttl` is 0 for a goodbye.
unfoldable pub build_announcement : Env → Configuration → Bytes → Bytes → ℕ → DnsResult Bytes
unfolding build_txt_data put_uint16 append_entries to4
build_announcement env c mac ip ttl = elim (to4 ip) [
  | none ↦ err ipv4_required
  | some ip4 ↦ do
    let service_instance = c.instance_name ++ (b'.' ∷ http_service)
    let host = c.host_label ++ codes ".local"
    iw ← encode_dns_name service_instance
    hw ← encode_dns_name host
    sw ← encode_dns_name http_service
    let mac_text = if length mac == 0 then codes "02:00:00:00:00:01" else mac
    txt ← build_txt_data (
        (codes "id=E70640 " ++ c.serial)
        ∷ codes "model=Raymarine YachtSense Link"
        ∷ (codes "version=" ++ c.version)
        ∷ (codes "mac=" ++ to_lower env.unicode_lower mac_text)
        ∷ [])
    let port = if c.dashboard_port == 0 then 80 else c.dashboard_port
    let srv = append_uint16 (0 ∷ 0 ∷ 0 ∷ 0 ∷ []) (port % 2 ^ 16) ++ hw
    append_entries ttl (put_uint16 (put_uint16 empty_header 2 0x8400) 6 5) (
        (http_service, 12, 1, iw)
        ∷ (service_instance, 33, 0x8001, srv)
        ∷ (service_instance, 16, 0x8001, txt)
        ∷ (host, 1, 0x8001, ip4)
        ∷ (browse_type, 12, 1, sw)
        ∷ [])
]
