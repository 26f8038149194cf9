-- ===== src/Dns/Message/Records.antt =====
-- One resource record on the wire: `appendRR`, and the round of `parseDNSMessage` that reads it
-- (dns.go).
use yachtsense_link_emulator.Common.{
  ℕ, ◌+◌, ◌/◌, ◌%◌, ◌^◌, ◌≤◌, ◌<◌, false, [], ◌∷◌, ◌++◌, append_assoc, ◌≡◌, refl, sym, ap, ◌∙◌, ltb,
  if◌then◌else◌, length, length-append, length-drop, take, drop, take-append, drop-append, drop-add,
  get_or-drop, ok, err, arith,
}
use yachtsense_link_emulator.Common.Bytes.{Bytes}
use yachtsense_link_emulator.Dns.Types.{Env, oversize_rdata}
use yachtsense_link_emulator.Dns.Name.{byte_at}
use yachtsense_link_emulator.Dns.Name.Labels.{IsWire}
use yachtsense_link_emulator.Dns.Name.RoundTrip.{decode_name-IsWire}
use yachtsense_link_emulator.Dns.Message.Build.{uint16_bytes, uint32_bytes, append_rr}
use yachtsense_link_emulator.Dns.Message.Parse.{
  uint16_at, uint32_at, Rdata, parse_rdata, parse_record,
}

-- A record on the wire
abbrev pub rr_bytes : Bytes → ℕ → ℕ → ℕ → Bytes → Bytes
rr_bytes wire typ class ttl rdata =
    wire
    ++ (uint16_bytes typ
        ++ (uint16_bytes class
            ++ (uint32_bytes ttl ++ (uint16_bytes (length rdata % 2 ^ 16) ++ rdata))))

pub append_rr-rr_bytes :
    (p wire : Bytes) (typ class ttl : ℕ) (rdata : Bytes)
    → append_rr p wire typ class ttl rdata ≡ (
        if ltb 65535 (length rdata)
        then err oversize_rdata
        else ok (p ++ rr_bytes wire typ class ttl rdata))
unfolding append_rr
append_rr-rr_bytes p wire typ class ttl rdata = simp append_assoc

pub append_rr-ok :
    (p wire : Bytes) (typ class ttl : ℕ) (rdata : Bytes) {q : Bytes}
    → append_rr p wire typ class ttl rdata ≡ ok q
    → (length rdata ≤ 65535) × (q ≡ p ++ rr_bytes wire typ class ttl rdata)
append_rr-ok p wire typ class ttl rdata h =
    ground (arith, append_rr-rr_bytes p wire typ class ttl rdata)

-- What follows a piece of the packet
pub drop_next : (p xs ys : Bytes) (off : ℕ) → drop off p ≡ xs ++ ys → drop (off + length xs) p ≡ ys
drop_next p xs ys off h = drop-add off (length xs) p ∙ ap (drop (length xs)) h ∙ drop-append xs ys

byte_at-cons : (p ys : Bytes) (off x : ℕ) → drop off p ≡ x ∷ ys → byte_at p off ≡ x
byte_at-cons p ys off x h = get_or-drop off p 0 ∙ ap (λ t. byte_at t 0) h

pub uint16_at-uint16_bytes :
    (p ys : Bytes) (off v : ℕ)
    → v < 2 ^ 16
    → drop off p ≡ uint16_bytes v ++ ys
    → (uint16_at p off ≡ v) × (drop (off + 2) p ≡ ys)
unfolding uint16_at uint16_bytes
uint16_at-uint16_bytes p ys off v small h =
    let hi = byte_at-cons p _ off _ h in
    let lo = byte_at-cons p _ (off + 1) _ (drop_next p (v / 256 % 256 ∷ []) _ off h) in
    (omega (arith, hi, lo), drop_next p (uint16_bytes v) ys off h)

uint32_at-uint32_bytes :
    (p ys : Bytes) (off v : ℕ)
    → v < 2 ^ 32
    → drop off p ≡ uint32_bytes v ++ ys
    → (uint32_at p off ≡ v) × (drop (off + 4) p ≡ ys)
unfolding uint32_at uint32_bytes
uint32_at-uint32_bytes p ys off v small h =
    let a = byte_at-cons p _ off _ h in
    let b = byte_at-cons p _ (off + 1) _ (drop_next p (v / 2 ^ 24 % 256 ∷ []) _ off h) in
    let c =
      byte_at-cons p _ (off + 2) _
        (drop_next p (v / 2 ^ 24 % 256 ∷ v / 2 ^ 16 % 256 ∷ []) _ off h) in
    let d =
      byte_at-cons p _ (off + 3) _
        (drop_next p (v / 2 ^ 24 % 256 ∷ v / 2 ^ 16 % 256 ∷ v / 256 % 256 ∷ []) _ off h) in
    (omega (arith, a, b, c, d), drop_next p (uint32_bytes v) ys off h)

-- What stands before the data of a record
abbrev pub rr_head : Bytes → ℕ → ℕ → ℕ → ℕ → Bytes → Bytes
rr_head wire typ class ttl n rest =
    wire
    ++ (uint16_bytes typ ++ (uint16_bytes class ++ (uint32_bytes ttl ++ (uint16_bytes n ++ rest))))

shift : (p x : Bytes) {a b : ℕ} → a ≡ b → drop a p ≡ x → drop b p ≡ x
shift p x e h = ap (λ (k : ℕ). drop k p) (sym e) ∙ h

-- The numbers in front of a record's data
record Fields (p : Bytes) (at typ class ttl n : ℕ) (rest : Bytes) : Type 0 where
  typ_is : uint16_at p at ≡ typ
  class_is : uint16_at p (at + 2) ≡ class
  ttl_is : uint32_at p (at + 4) ≡ ttl
  size_is : uint16_at p (at + 8) ≡ n
  behind : drop (at + 10) p ≡ rest
  room : at + 10 ≤ length p

length-uint32_bytes : (v : ℕ) → length (uint32_bytes v) ≡ 4
unfolding uint32_bytes
length-uint32_bytes v = refl

-- How far a packet reaches that has these bytes at an offset
length_of_drop :
    (p xs ys : Bytes) (off : ℕ) → 0 < length xs → drop off p ≡ xs ++ ys → off + length xs ≤ length p
length_of_drop p xs ys off pos h =
    omega (arith, ap length (sym h) ∙ length-drop off p, length-append xs ys)

length-uint16_bytes : (v : ℕ) → length (uint16_bytes v) ≡ 2
unfolding uint16_bytes
length-uint16_bytes v = refl

read-Fields :
    (p : Bytes) (at typ class ttl n : ℕ) (rest : Bytes)
    → typ < 2 ^ 16
    → class < 2 ^ 16
    → ttl < 2 ^ 32
    → n < 2 ^ 16
    → drop at p ≡ rr_head [] typ class ttl n rest
    → Fields p at typ class ttl n rest
read-Fields p at typ class ttl n rest ht hc hl hn h =
    let (t, h2) = uint16_at-uint16_bytes p _ at typ ht h in
    let (c, h4) = uint16_at-uint16_bytes p _ (at + 2) class hc h2 in
    let (l, h8) = uint32_at-uint32_bytes p _ (at + 4) ttl hl (shift p _ (omega arith) h4) in
    let (s, h10) = uint16_at-uint16_bytes p _ (at + 8) n hn (shift p _ (omega arith) h8) in
    let two = length-uint16_bytes n in
    let end =
      length_of_drop p (uint16_bytes n) rest (at + 8) (omega (arith, two))
        (shift p _ (omega arith) h8) in
    record {
      room = omega (arith, end, two);
      typ_is = t;
      class_is = c;
      ttl_is = l;
      size_is = s;
      behind = shift p _ (omega arith) h10;
    }

-- Where the data of such a record begins
pub rr_head-behind :
    (p : Bytes) (off : ℕ) (wire : Bytes) (typ class ttl n : ℕ) (rest : Bytes)
    → drop off p ≡ rr_head wire typ class ttl n rest
    → drop (off + length wire + 10) p ≡ rest
rr_head-behind p off wire typ class ttl n rest h =
    let h0 = drop_next p wire _ off h in
    let h1 = drop_next p (uint16_bytes typ) _ _ h0 in
    let h2 = drop_next p (uint16_bytes class) _ _ h1 in
    let h3 = drop_next p (uint32_bytes ttl) _ _ h2 in
    let h4 = drop_next p (uint16_bytes n) _ _ h3 in
    shift p rest
      (omega (
        arith,
        length-uint16_bytes typ,
        length-uint16_bytes class,
        length-uint32_bytes ttl,
        length-uint16_bytes n,
      ))
      h4

ltb_of_le : (a b : ℕ) → a ≤ b → ltb b a ≡ false
ltb_of_le a b h = ground arith

-- A record that stands in a packet with the numbers of `rr_head` before its data is read as it is.
pub parse_record-rr_head :
    (env : Env) (p : Bytes) (off : ℕ) (wire : Bytes) (typ class ttl : ℕ) (rdata rest : Bytes)
    (f : Rdata)
    → IsWire wire
    → typ < 2 ^ 16
    → class < 2 ^ 16
    → ttl < 2 ^ 32
    → length rdata < 2 ^ 16
    → drop off p ≡ rr_head wire typ class ttl (length rdata) (rdata ++ rest)
    → parse_rdata env p typ (off + length wire + 10) (length rdata) ≡ ok f
    → (name : Bytes) × (parse_record env p off
        ≡ ok (
          record {
            name = name;
            typ = typ;
            class = class;
            ttl = ttl;
            target = f.target;
            port = f.port;
            address = f.address;
            rdata = rdata;
            wire = wire;
            target_wire = f.target_wire;
          },
          off + length wire + 10 + length rdata,
        ))
      × (drop (off + length wire + 10 + length rdata) p ≡ rest)
unfolding parse_record
parse_record-rr_head env p off wire typ class ttl rdata rest f w ht hc hl hn here parsed =
    let (name, decoded) = decode_name-IsWire env p off wire _ w here in
    let at = off + length wire in
    let fs =
      read-Fields p at typ class ttl (length rdata) (rdata ++ rest) ht hc hl hn
        (drop_next p wire _ off here) in
    let total = ap length (sym fs.behind) ∙ length-drop (at + 10) p in
    let size = length-append rdata rest in
    let first : ltb (length p) (at + 10) ≡ false = ltb_of_le (at + 10) (length p) fs.room in
    let second : ltb (length p) (at + 10 + length rdata) ≡ false =
      ltb_of_le (at + 10 + length rdata) (length p) (omega (arith, fs.room, total, size)) in
    let cut : take (length rdata) (drop (at + 10) p) ≡ rdata =
      rw fs.behind (take-append rdata rest) in
    (
      name,
      rw (decoded, fs.typ_is, fs.class_is, fs.ttl_is, fs.size_is, parsed, cut) (rw (first, second)),
      drop_next p rdata rest (at + 10) fs.behind,
    )
