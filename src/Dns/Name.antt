-- ===== src/Dns/Name.antt =====
-- Domain names on the wire: `normalizeDNSName`, `cleanSerial`, `encodeDNSName`, `decodeName`.
pub mod Split
pub mod Labels
pub mod Decode
pub mod RoundTrip
use yachtsense_link_emulator.Common.{
  ℕ, zero, suc, ◌+◌, ◌-◌, ◌*◌, ◌%◌, Bool, true, false, not, ◌&&◌, ◌||◌, List, [], ◌∷◌, ◌++◌, Option,
  none, some, ltb, leb, ◌==◌, if◌then◌else◌, length, take, drop, get_or, ok, err, ◌>>=◌, ◌>>◌,
  refuse_if,
}
use yachtsense_link_emulator.Common.Bytes.{
  Bytes, codes, equal, trim_suffix_byte, split, join, to_lower,
}
use yachtsense_link_emulator.Dns.Types.{
  Env, DnsError, DnsResult, invalid_label, name_too_long, invalid_pointer, unterminated_name,
  truncated_pointer, forward_pointer, out_of_fuel,
}

-- `normalizeDNSName`
unfoldable pub normalize_dns_name : Env → Bytes → Bytes
normalize_dns_name env name = to_lower env.unicode_lower (trim_suffix_byte b'.' name)

-- The loop of `encodeDNSName` over the labels
unfoldable pub encode_labels : List Bytes → DnsResult Bytes
encode_labels [] = ok []
encode_labels (label ∷ labels) =
    let rest = encode_labels labels in
    if length label == 0 || ltb 63 (length label)
    then err invalid_label
    else rest >>= λ out. ok (length label ∷ label ++ out)

-- `encodeDNSName`
unfoldable pub encode_dns_name : Bytes → DnsResult Bytes
unfolding encode_labels equal
encode_dns_name name = if equal name [] || equal name (codes ".") then ok (0 ∷ []) else do
  labels ← encode_labels (split b'.' (trim_suffix_byte b'.' name))
  let out = labels ++ 0 ∷ []
  refuse_if (ltb 255 (length out)) name_too_long
  ok out

pub record Decoded : Type 0 where
  pub name : Bytes
  pub next : ℕ
  pub wire : Bytes

-- `packet[off]`, where the code has checked `off` against the length
abbrev pub byte_at : Bytes → ℕ → ℕ
byte_at packet off = get_or packet off 0

-- What follows the loop of `decodeName`
unfoldable pub finish_name : Env → ℕ → Bytes → List Bytes → DnsResult Decoded
finish_name env next wire labels =
    if ltb 255 (length wire)
    then err name_too_long
    else ok (record { name = normalize_dns_name env (join b'.' labels); next = next; wire = wire })

abbrev pub unless_empty : Bytes → List Bytes
unless_empty [] = []
unless_empty (c ∷ s) = (c ∷ s) ∷ []

-- The loop of `decodeName` at offset `off`, with what it has collected. `follow` is the recursive
-- call on a pointer; the first argument bounds the rounds.
unfoldable pub decode_loop :
    Env → (ℕ → DnsResult Decoded) → Bytes → ℕ → ℕ → Bytes → List Bytes → DnsResult Decoded
unfolding finish_name
decode_loop env follow packet zero off wire labels = err out_of_fuel
decode_loop env follow packet (suc fuel) off wire labels =
    let n = byte_at packet off in
    let low = byte_at packet (off + 1) in
    let ptr = n % 64 * 256 + low in
    let label = take n (drop (off + 1) packet) in
    let wire' = wire ++ n ∷ label in
    let more = decode_loop env follow packet fuel (off + 1 + n) wire' (labels ++ label ∷ []) in
    if leb (length packet) off
    then err unterminated_name
    else if n == 0
    then finish_name env (off + 1) (wire ++ 0 ∷ []) labels
    else if leb 192 n
    then (if leb (length packet) (off + 1)
        then err truncated_pointer
        else if leb off ptr
        then err forward_pointer
        else (follow ptr >>= λ tail.
            finish_name env (off + 2) (wire ++ tail.wire) (labels ++ unless_empty tail.name)))
    else if ltb 63 n || ltb (length packet) (off + 1 + n)
    then err invalid_label
    else if ltb 254 (length wire')
    then err name_too_long
    else more

-- `decodeName` with the pointer levels that are left: `depth > 12` refuses
unfoldable pub decode_level : Env → Bytes → ℕ → ℕ → DnsResult Decoded
decode_level env packet zero start = err invalid_pointer
decode_level env packet (suc level) start =
    if leb (length packet) start
    then err invalid_pointer
    else decode_loop env (decode_level env packet level) packet (suc (length packet)) start [] []

-- `decodeName`
unfoldable pub decode_name : Env → Bytes → ℕ → ℕ → DnsResult Decoded
decode_name env packet start depth = decode_level env packet (13 - depth) start
