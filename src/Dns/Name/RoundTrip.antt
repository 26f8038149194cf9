-- ===== src/Dns/Name/RoundTrip.antt =====
-- `encodeDNSName` and then `decodeName` (dns.go).
use yachtsense_link_emulator.Common.{
  ℕ, zero, suc, ◌+◌, ◌-◌, ◌≤◌, ◌<◌, false, List, [], ◌∷◌, ◌++◌, append-nil, append_assoc, ◌≡◌, refl,
  sym, ap, subst, ◌∙◌, ◌⊎◌, inl, inr, arith, leb, length, take, drop, length-append, length-drop,
  take-append, drop-append, drop-add, get_or-drop, All, ok,
}
use yachtsense_link_emulator.Common.Bytes.{Bytes, join, split, trim_suffix_byte, to_lower}
use yachtsense_link_emulator.Dns.Types.{Env, DnsResult}
use yachtsense_link_emulator.Dns.Name.{
  Decoded, byte_at, finish_name, decode_loop, decode_level, decode_name, encode_dns_name,
  normalize_dns_name,
}
use native.Mathlib.Nat.{zero-add}
use yachtsense_link_emulator.Dns.Name.Decode.{decode_name-Sound}
use yachtsense_link_emulator.Dns.Name.Split.{join-split, trim_suffix_byte-EndsFull, EndsFull}
use yachtsense_link_emulator.Dns.Name.Labels.{IsLabel, IsWire, wire_labels, encode_dns_name-Encodes}

-- What stands in the packet from `off` on
module _ (packet : Bytes) (off : ℕ) (here : Bytes) (at_off : drop off packet ≡ here) where
  byte_at-here : byte_at packet off ≡ byte_at here 0
  byte_at-here = get_or-drop off packet 0 ∙ ap (λ t. byte_at t 0) at_off

  length-here : length here ≡ length packet - off
  length-here = ap length (sym at_off) ∙ length-drop off packet

same_finish :
    (env : Env) {a b : ℕ} {v w : Bytes} {k l : List Bytes}
    → a ≡ b
    → v ≡ w
    → k ≡ l
    → finish_name env a v k ≡ finish_name env b w l
same_finish env p q r = cc

module _ (env : Env) (follow : ℕ → DnsResult Decoded) (packet : Bytes) where
  step_label :
      (fuel off : ℕ) (label rest wire : Bytes) (labels : List Bytes)
      → drop off packet ≡ length label ∷ label ++ rest
      → IsLabel label
      → length wire + length label < 254
      → decode_loop env follow packet (suc fuel) off wire labels
        ≡ decode_loop env follow packet fuel
            (off + 1 + length label)
            (wire ++ length label ∷ label)
            (labels ++ label ∷ [])
  unfolding decode_loop
  step_label fuel off label rest wire labels at_off (low, high) short =
      let n : byte_at packet off ≡ length label = byte_at-here packet off _ at_off in
      let len = length-here packet off _ at_off in
      let behind : drop (off + 1) packet ≡ label ++ rest =
        drop-add off 1 packet ∙ ap (drop 1) at_off in
      let cut : take (length label) (drop (off + 1) packet) ≡ label =
        rw behind (take-append label rest) in
      rw (n, cut)
        (ground (arith, length-append label rest, length-append wire (length label ∷ label)))

  step_root :
      (fuel off : ℕ) (rest wire : Bytes) (labels : List Bytes)
      → drop off packet ≡ 0 ∷ rest
      → decode_loop env follow packet (suc fuel) off wire labels
        ≡ finish_name env (off + 1) (wire ++ 0 ∷ []) labels
  unfolding decode_loop
  step_root fuel off rest wire labels at_off =
      let n : byte_at packet off ≡ 0 = byte_at-here packet off _ at_off in
      let len = length-here packet off _ at_off in ground arith

  decode_loop-wire_labels :
      (ls : List Bytes) (fuel off : ℕ) (rest wire : Bytes) (labels : List Bytes)
      → All IsLabel ls
      → drop off packet ≡ wire_labels ls ++ 0 ∷ rest
      → length wire + length (wire_labels ls) < 255
      → length ls < fuel
      → decode_loop env follow packet fuel off wire labels
        ≡ finish_name env
            (off + length (wire_labels ls) + 1)
            (wire ++ wire_labels ls ++ 0 ∷ [])
            (labels ++ ls)
  decode_loop-wire_labels ls zero off rest wire labels each at_off short room = absurd (omega arith)
  decode_loop-wire_labels [] (suc fuel) off rest wire labels each at_off short room =
      step_root fuel off rest wire labels at_off
      ∙ same_finish env (omega arith) (rw append-nil) (sym (append-nil labels))
  decode_loop-wire_labels (l ∷ ls) (suc fuel) off rest wire labels each at_off short room =
      let here : drop off packet ≡ length l ∷ l ++ (wire_labels ls ++ 0 ∷ rest) =
        at_off ∙ append_assoc (length l ∷ l) _ _ in
      let behind : drop (off + 1) packet ≡ l ++ (wire_labels ls ++ 0 ∷ rest) =
        drop-add off 1 packet ∙ ap (drop 1) here in
      let next : drop (off + 1 + length l) packet ≡ wire_labels ls ++ 0 ∷ rest =
        drop-add (off + 1) (length l) packet ∙ ap (drop (length l)) behind ∙ drop-append l _ in
      let size = length-append l (wire_labels ls) in
      let size' = length-append wire (length l ∷ l) in
      step_label fuel off l _ wire labels here each.0 (omega arith)
      ∙ decode_loop-wire_labels ls fuel (off + 1 + length l) rest (wire ++ length l ∷ l)
          (labels ++ l ∷ []) each.1 next (omega arith) (omega arith)
      ∙ same_finish env (omega arith)
          (ap (λ t. t ++ 0 ∷ []) (append_assoc wire (length l ∷ l) (wire_labels ls)))
          (append_assoc labels (l ∷ []) ls)

length-wire_labels : (ls : List Bytes) → length ls ≤ length (wire_labels ls)
length-wire_labels [] = omega arith
length-wire_labels (l ∷ ls) = omega (arith, length-wire_labels ls, length-append l (wire_labels ls))

finish_short :
    (env : Env) (next : ℕ) (w : Bytes) (ls : List Bytes)
    → length w ≤ 255
    → finish_name env next w ls
      ≡ ok (record { name = normalize_dns_name env (join b'.' ls); next = next; wire = w })
unfolding finish_name
finish_short env next w ls h = ground arith

-- An uncompressed wire name anywhere in a packet is read back as it stands.
pub decode_name-wire :
    (env : Env) (packet : Bytes) (off depth : ℕ) (ls : List Bytes) (w rest : Bytes)
    → depth ≤ 12
    → All IsLabel ls
    → w ≡ wire_labels ls ++ 0 ∷ []
    → length w ≤ 255
    → drop off packet ≡ w ++ rest
    → decode_name env packet off depth
      ≡ ok
          (record { name = normalize_dns_name env (join b'.' ls); next = off + length w; wire = w })
unfolding decode_name decode_level
decode_name-wire env packet off depth ls w rest low each spelled short at_off =
    let level : 13 - depth ≡ suc (12 - depth) = omega arith in
    let here : drop off packet ≡ wire_labels ls ++ 0 ∷ rest =
      at_off ∙ ap (λ t. t ++ rest) spelled ∙ append_assoc (wire_labels ls) (0 ∷ []) rest in
    let len = ap length spelled ∙ length-append (wire_labels ls) (0 ∷ []) in
    let total = length-here packet off _ here in
    let split = length-append (wire_labels ls) (0 ∷ rest) in
    let inside : leb (length packet) off ≡ false = ground arith in
    rw (level, inside)
      (decode_loop-wire_labels env (decode_level env packet (12 - depth)) packet ls
          (suc (length packet)) off rest [] [] each here (omega arith)
          (omega (arith, length-wire_labels ls))
        ∙ same_finish env (omega arith) (sym spelled) refl
        ∙ finish_short env (off + length w) w ls short)

-- The same of a name known to be a wire name
pub decode_name-IsWire :
    (env : Env) (packet : Bytes) (off : ℕ) (w rest : Bytes)
    → IsWire w
    → drop off packet ≡ w ++ rest
    → (name : Bytes) × (decode_name env packet off 0
        ≡ ok (record { name = name; next = off + length w; wire = w }))
decode_name-IsWire env packet off w rest v at_off = (
  normalize_dns_name env (join b'.' v.labels),
  decode_name-wire env packet off 0 v.labels w rest (omega arith) v.each v.spelled v.short at_off,
)

-- The wire name that `decodeName` keeps of a name in a packet is self-contained: in front of any bytes
-- and at a depth of at most 12 it is read again, as itself and to its end.
pub decode_name-retained :
    (env : Env) (packet rest : Bytes) (off depth depth' : ℕ) (d : Decoded)
    → decode_name env packet off depth ≡ ok d
    → depth' ≤ 12
    → (name : Bytes) × (decode_name env (d.wire ++ rest) 0 depth'
        ≡ ok (record { name = name; next = length d.wire; wire = d.wire }))
decode_name-retained env packet rest off depth depth' d h low =
    let w = (decode_name-Sound env packet off depth d h).wire in
    (
      normalize_dns_name env (join b'.' w.labels),
      decode_name-wire env (d.wire ++ rest) 0 depth' w.labels d.wire rest low w.each w.spelled
            w.short refl
          ∙ rw zero-add,
    )

normal_name :
    (env : Env) (name : Bytes) (ls : List Bytes)
    → ((ls ≡ []) × (trim_suffix_byte b'.' name ≡ []))
      ⊎ ((ls ≡ split b'.' (trim_suffix_byte b'.' name)) × EndsFull ls)
    → normalize_dns_name env (join b'.' ls) ≡ normalize_dns_name env name
unfolding normalize_dns_name join trim_suffix_byte
normal_name env name ls (inl (e, t)) =
    ap (to_lower env.unicode_lower)
      (ap (λ (k : List Bytes). trim_suffix_byte b'.' (join b'.' k)) e ∙ sym t)
normal_name env name ls (inr (e, full)) =
    let joined : join b'.' ls ≡ trim_suffix_byte b'.' name = ap (join b'.') e ∙ join-split b'.' _ in
    let full' = subst EndsFull e full in
    ap (to_lower env.unicode_lower) (
      ap (trim_suffix_byte b'.') joined
      ∙ trim_suffix_byte-EndsFull b'.' (trim_suffix_byte b'.' name) full')

-- What `encodeDNSName` writes, `decodeName` reads wherever it stands in a packet, at a depth of at
-- most 12: it gives the normalised name, the offset behind it, and the written bytes.
pub decode_name-encode_dns_name :
    (env : Env) (name w front back : Bytes) (depth : ℕ)
    → encode_dns_name name ≡ ok w
    → depth ≤ 12
    → decode_name env (front ++ (w ++ back)) (length front) depth
      ≡ ok (record { name = normalize_dns_name env name; next = length front + length w; wire = w })
decode_name-encode_dns_name env name w front back depth h low =
    let e = encode_dns_name-Encodes name h in
    decode_name-wire env (front ++ (w ++ back)) (length front) depth e.labels w back low e.each
      e.spelled e.short (drop-append front (w ++ back))
    ∙ rw (normal_name env name e.labels e.parts)
