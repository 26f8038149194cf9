-- ===== src/Dns/Message/Content.antt =====
-- What `parseDNSMessage` has checked of the records that it returns.
use yachtsense_link_emulator.Common.{
  ℕ, zero, suc, ◌+◌, ◌≤◌, ◌<◌, ◌^◌, true, false, List, [], ◌∷◌, ◌≡◌, ◌≢◌, inl, inr, refl, ap, subst,
  ltb, ◌==◌, length, length-drop, length-take_of_le, take, drop, All, ok, err, refuse_if-eq-ok,
  >>=-eq-ok, arith, Bool-cases,
}
use yachtsense_link_emulator.Common.Bytes.{Bytes}
use yachtsense_link_emulator.Dns.Types.{Env, DnsResult, DnsRecord, DnsMessage}
use yachtsense_link_emulator.Dns.Name.{Decoded, byte_at, decode_name}
use yachtsense_link_emulator.Dns.Name.Labels.{IsWire}
use yachtsense_link_emulator.Dns.Name.Decode.{decode_name-Sound}
use yachtsense_link_emulator.Dns.Message.Parse.{
  uint16_at, uint32_at, is_txt, Rdata, target_result, parse_rdata, parse_record, parse_entries,
  has_opcode_or_rcode, parse_question, parse_dns_message,
}

-- A packet is a list of bytes.
abbrev pub IsBytes : Bytes → Type 0
IsBytes p = All (λ b. b < 256) p

-- What holds of a record's data by its type
pub data Content (typ : ℕ) (rdata target_wire : Bytes) : Type 0 where
  pointer : typ ≡ 12 → IsWire target_wire → Content typ rdata target_wire
  server : typ ≡ 33 → IsWire target_wire → 6 ≤ length rdata → Content typ rdata target_wire
  address4 : typ ≡ 1 → length rdata ≡ 4 → Content typ rdata target_wire
  address6 : typ ≡ 28 → length rdata ≡ 16 → Content typ rdata target_wire
  txt : typ ≡ 16 → is_txt 0 rdata ≡ true → Content typ rdata target_wire
  other : typ ≢ 12 → typ ≢ 33 → typ ≢ 1 → typ ≢ 28 → typ ≢ 16 → Content typ rdata target_wire

target_result-ok :
    (end port : ℕ) (r : DnsResult Decoded) (f : Rdata)
    → target_result end port r ≡ ok f
    → (d : Decoded) × (r ≡ ok d) × (d.wire ≡ f.target_wire)
unfolding target_result
target_result-ok end port (ok d) f h = (d, refl, ground arith)
target_result-ok end port (err e) f h = absurd (cc)

target_result-IsWire :
    (env : Env) (p : Bytes) (at end port : ℕ) (f : Rdata)
    → target_result end port (decode_name env p at 0) ≡ ok f
    → IsWire f.target_wire
target_result-IsWire env p at end port f h =
    let (d, e, same) = target_result-ok end port _ f h in
    subst IsWire same (decode_name-Sound env p at 0 d e).wire

parse_rdata-Content :
    (env : Env) (p : Bytes) (typ off n : ℕ) (f : Rdata)
    → off + n ≤ length p
    → parse_rdata env p typ off n ≡ ok f
    → Content typ (take n (drop off p)) f.target_wire
unfolding parse_rdata
parse_rdata-Content env p typ off n f inside h =
    let size : length (take n (drop off p)) ≡ n =
      length-take_of_le n (drop off p) (omega (arith, length-drop off p)) in
    elim (Bool-cases (typ == 12)) [
      | inl a ↦ pointer (ground arith) (target_result-IsWire env p off _ _ f (rw a at h))
      | inr a ↦ elim (Bool-cases (typ == 33)) [
        | inl b ↦ elim (Bool-cases (ltb n 7)) [
          | inl short ↦ absurd (ground arith)
          | inr long ↦
              server (ground arith)
                (target_result-IsWire env p (off + 6) _ _ f (rw (a, b, long) at h)) (ground arith)
        ]
        | inr b ↦ elim (Bool-cases (typ == 1)) [
          | inl c ↦ address4 (ground arith) (ground arith)
          | inr c ↦ elim (Bool-cases (typ == 28)) [
            | inl d ↦ address6 (ground arith) (ground arith)
            | inr d ↦ elim (Bool-cases (typ == 16)) [
              | inl e ↦ txt (ground arith) (ground arith)
              | inr e ↦
                  other (ground arith) (ground arith) (ground arith) (ground arith) (ground arith)
            ]
          ]
        ]
      ]
    ]

byte_at-lt : (p : Bytes) (i : ℕ) → IsBytes p → byte_at p i < 256
byte_at-lt [] i h = omega arith
byte_at-lt (x ∷ p) zero h = h.0
byte_at-lt (x ∷ p) (suc i) h = byte_at-lt p i h.1

pub uint16_at-lt : (p : Bytes) (i : ℕ) → IsBytes p → uint16_at p i < 2 ^ 16
unfolding uint16_at
uint16_at-lt p i h = omega (arith, byte_at-lt p i h, byte_at-lt p (i + 1) h)

uint32_at-lt : (p : Bytes) (i : ℕ) → IsBytes p → uint32_at p i < 2 ^ 32
unfolding uint32_at
uint32_at-lt p i h = omega (
  arith,
  byte_at-lt p i h,
  byte_at-lt p (i + 1) h,
  byte_at-lt p (i + 2) h,
  byte_at-lt p (i + 3) h,
)

-- A record as `parseDNSMessage` returns it
pub record IsParsed (r : DnsRecord) : Type 0 where
  pub wire : IsWire r.wire
  pub typ_small : r.typ < 2 ^ 16
  pub class_small : r.class < 2 ^ 16
  pub ttl_small : r.ttl < 2 ^ 32
  pub content : Content r.typ r.rdata r.target_wire

-- The result of a round, where none of its checks refuses
le_of_ltb : (a b : ℕ) → ltb a b ≡ false → b ≤ a
le_of_ltb a b h = ground arith

parse_record-steps :
    (env : Env) (p : Bytes) (off : ℕ) {r : DnsRecord} {next : ℕ}
    → parse_record env p off ≡ ok (r, next)
    → (d : Decoded) × (decode_name env p off 0 ≡ ok d)
      × (r.wire ≡ d.wire)
      × (r.typ ≡ uint16_at p d.next)
      × (r.class ≡ uint16_at p (d.next + 2))
      × (r.ttl ≡ uint32_at p (d.next + 4))
      × (d.next + 10 + uint16_at p (d.next + 8) ≤ length p)
      × (f : Rdata) × (parse_rdata env p
            (uint16_at p d.next)
            (d.next + 10)
            (uint16_at p (d.next + 8))
          ≡ ok f)
      × (r.rdata ≡ take (uint16_at p (d.next + 8)) (drop (d.next + 10) p))
      × (r.target_wire ≡ f.target_wire)
unfolding parse_record
parse_record-steps env p off {r} {next} h =
    let (d, e, k) = >>=-eq-ok (decode_name env p off 0) _ h in
    let n = uint16_at p (d.next + 8) in
    let (b1, k1) = refuse_if-eq-ok (ltb (length p) (d.next + 10)) _ _ k in
    let (b2, k2) = refuse_if-eq-ok (ltb (length p) (d.next + 10 + n)) _ _ k1 in
    let (f, parsed, done) =
      >>=-eq-ok (parse_rdata env p (uint16_at p d.next) (d.next + 10) n) _ k2 in
    (d, e, cc, cc, cc, cc, le_of_ltb (length p) (d.next + 10 + n) b2, f, parsed, cc, cc)

-- Every record that `parseDNSMessage` takes has an uncompressed wire name, numbers of their widths,
-- and data that fits its type.
pub parse_record-IsParsed :
    (env : Env) (p : Bytes) (off : ℕ) {r : DnsRecord} {next : ℕ}
    → IsBytes p
    → parse_record env p off ≡ ok (r, next)
    → IsParsed r
parse_record-IsParsed env p off bytes h =
    let (d, e, wire, typ, class, ttl, inside, f, parsed, rdata, target) =
      parse_record-steps env p off h in
    let checked =
      parse_rdata-Content env p (uint16_at p d.next) (d.next + 10) (uint16_at p (d.next + 8)) f
        inside parsed in
    record {
      wire = rw wire (decode_name-Sound env p off 0 d e).wire;
      typ_small = rw typ (uint16_at-lt p d.next bytes);
      class_small = rw class (uint16_at-lt p (d.next + 2) bytes);
      ttl_small = rw ttl (uint32_at-lt p (d.next + 4) bytes);
      content = rw (typ, rdata, target) checked;
    }

parse_entries-All :
    {A : Type 0} (P : A → Type 0) (parse : ℕ → DnsResult (A × ℕ))
    → ((off : ℕ) (a : A) (next : ℕ) → parse off ≡ ok (a, next) → P a)
    → (n off : ℕ) {xs : List A} {end : ℕ} → parse_entries parse n off ≡ ok (xs, end)
    → All P xs × (length xs ≡ n)
unfolding parse_entries
parse_entries-All P parse each zero off {xs} h = let e : xs ≡ [] = cc in rw e (tt, refl)
parse_entries-All {A} P parse each (suc n) off {xs} h =
    let ((a, next), e, k) = >>=-eq-ok (parse off) _ h in
    let ((rest, last), e', k') = >>=-eq-ok (parse_entries parse n next) _ k in
    let (all, size) = parse_entries-All P parse each n next {xs = rest} e' in
    let same : xs ≡ a ∷ rest = cc in rw same ((each off a next e, all), ap suc size)

-- Of every message that `parseDNSMessage` accepts, a packet of bytes, there are at most 1024 records,
-- and each has an uncompressed wire name, numbers of their widths, and data of the form that its type
-- asks for.
pub parse_dns_message-IsParsed :
    (env : Env) (p : Bytes) (m : DnsMessage)
    → IsBytes p
    → parse_dns_message env p ≡ ok m
    → All IsParsed m.records × (length m.records ≤ 1024)
unfolding parse_dns_message
parse_dns_message-IsParsed env p m bytes h =
    let q = uint16_at p 4 in
    let nr = uint16_at p 6 + uint16_at p 8 + uint16_at p 10 in
    let (_, h1) = refuse_if-eq-ok (ltb (length p) 12) _ _ h in
    let (_, h2) = refuse_if-eq-ok (has_opcode_or_rcode (uint16_at p 2)) _ _ h1 in
    let (few, h3) = refuse_if-eq-ok (ltb 1024 (q + nr)) _ _ h2 in
    let ((qs, off), _, h4) = >>=-eq-ok (parse_entries (parse_question env p) q 12) _ h3 in
    let ((rs, end), read, h5) = >>=-eq-ok (parse_entries (parse_record env p) nr off) _ h4 in
    let (all, size) =
      parse_entries-All IsParsed (parse_record env p)
        (λ o a n e. parse_record-IsParsed env p o bytes e) nr off read in
    let same : m.records ≡ rs = cc in
    rw same (all, omega (arith, size, le_of_ltb 1024 (q + nr) few))
