-- ===== src/Config/Text.antt =====
-- Tests on the texts of a configuration: `cleanSerial` (dns.go), `safeInterface`, `printable`,
-- `asBool`, and of the Go library the parsers of IPv4 addresses and prefixes, `strconv.Atoi` and
-- `strings.FieldsFunc`.
pub mod Serial
pub mod Octets
use yachtsense_link_emulator.Common.{
  ℕ, zero, suc, ◌+◌, ◌-◌, ◌*◌, ◌^◌, Bool, true, false, not, ◌&&◌, ◌||◌, List, [], ◌∷◌, ◌++◌, Option,
  none, some, ltb, leb, ◌==◌, if◌then◌else◌, length, take, Result, ok, err,
}
use yachtsense_link_emulator.Common.Bytes.{Bytes, codes, equal, split, contains_byte, to_lower}
use yachtsense_link_emulator.Common.Int.{ℤ, pos, negsuc}
use yachtsense_link_emulator.Config.Words.{
  ConfigError, ConfigResult, invalid_boolean, invalid_number,
}

abbrev pub is_digit : ℕ → Bool
is_digit c = leb b'0' c && leb c b'9'

abbrev pub is_alnum : ℕ → Bool
is_alnum c = leb b'a' c && leb c b'z' || (leb b'A' c && leb c b'Z' || is_digit c)

-- The bytes that `cleanSerial` keeps
abbrev pub is_serial_byte : ℕ → Bool
is_serial_byte c = is_alnum c || (c == b'-' || c == b'_')

unfoldable pub serial_bytes : Bytes → Bytes
serial_bytes [] = []
serial_bytes (c ∷ s) = if is_serial_byte c then c ∷ serial_bytes s else serial_bytes s

-- The default serial, where nothing is left
abbrev pub or_default : Bytes → Bytes
or_default [] = codes "AF002A4"
or_default (c ∷ s) = c ∷ s

-- `cleanSerial`. Only ASCII letters, digits, `-` and `_` stay, so `TrimSpace`, which removes only
-- white space at the ends, takes away nothing that would stay.
unfoldable pub clean_serial : Bytes → Bytes
unfolding serial_bytes
clean_serial v = let s = or_default (serial_bytes v) in if ltb 32 (length s) then take 32 s else s

-- Every byte passes the test; a byte from 128 on belongs to no ASCII character.
unfoldable pub all_bytes : (ℕ → Bool) → Bytes → Bool
all_bytes p [] = true
all_bytes p (c ∷ s) = p c && all_bytes p s

-- `safeInterface`
unfoldable pub safe_interface : Bytes → Bool
unfolding all_bytes equal contains_byte
safe_interface n =
    if ltb (length n) 1 || (ltb 15 (length n) || equal n (codes "lo"))
    then false
    else all_bytes (λ c. is_alnum c || contains_byte (codes "_.:-") c) n

-- `unicode.IsControl` of no character: no byte below 32, no 127, and no U+0080 to U+009F, which are
-- written 0xC2 0x80 to 0xC2 0x9F; the flag says that the byte before was 0xC2.
unfoldable pub no_control : Bool → Bytes → Bool
no_control after [] = true
no_control after (c ∷ s) =
    not (ltb c 32 || c == 127)
    && (not (after && (leb 0x80 c && leb c 0x9f)) && no_control (c == 0xc2) s)

-- `printable`
unfoldable pub printable : Bytes → ℕ → Bool
unfolding no_control
printable s max = if ltb (length s) 1 || ltb max (length s) then false else no_control false s

-- `asBool`
unfoldable pub as_bool : (Bytes → Bytes) → Bytes → ConfigResult Bool
unfolding to_lower equal
as_bool unicode_lower text =
    let s = to_lower unicode_lower text in
    if equal s (codes "1")
      || (equal s (codes "on")
          || (equal s (codes "yes") || (equal s (codes "true") || equal s (codes "enabled"))))
    then ok true
    else if equal s (codes "0")
        || (equal s (codes "off")
            || (equal s (codes "no") || (equal s (codes "false") || equal s (codes "disabled"))))
    then ok false
    else err invalid_boolean

-- The value of a text of digits
unfoldable pub digits_value : ℕ → Bytes → ℕ
digits_value acc [] = acc
digits_value acc (c ∷ s) = digits_value (acc * 10 + (c - 48)) s

abbrev pub is_number : Bytes → Bool
is_number s = not (length s == 0) && all_bytes is_digit s

abbrev signed : Bool → ℕ → ConfigResult ℤ
signed true zero = ok (pos 0)
signed true (suc n) = if ltb n (2 ^ 63) then ok (negsuc n) else err invalid_number
signed false n = if ltb n (2 ^ 63) then ok (pos n) else err invalid_number

abbrev unsigned_text : Bool → Bytes → ConfigResult ℤ
unsigned_text negative s =
    if is_number s then signed negative (digits_value 0 s) else err invalid_number

-- `strconv.Atoi`, of a 64-bit `int`
unfoldable pub atoi : Bytes → ConfigResult ℤ
unfolding digits_value all_bytes
atoi [] = err invalid_number
atoi (c ∷ s) =
    if c == b'-'
    then unsigned_text true s
    else if c == b'+'
    then unsigned_text false s
    else unsigned_text false (c ∷ s)

-- A number without a leading zero that is at most `max`
abbrev canonical : ℕ → Bytes → Option ℕ
canonical max [] = none
canonical max (c ∷ s) =
    if all_bytes is_digit (c ∷ s)
      && (not (c == b'0' && ltb 0 (length s)) && leb (digits_value 0 (c ∷ s)) max)
    then some (digits_value 0 (c ∷ s))
    else none

abbrev pub Ipv4 : Type 0
Ipv4 = ℕ × ℕ × ℕ × ℕ

abbrev four : List (Option ℕ) → Option Ipv4
four (some a ∷ some b ∷ some c ∷ some d ∷ []) = some (a, b, c, d)
four _ = none

abbrev octets : List Bytes → List (Option ℕ)
octets [] = []
octets (p ∷ ps) = canonical 255 p ∷ octets ps

-- `netip.ParseAddr(s)` where it gives an address with `Is4()`
unfoldable pub parse_ipv4 : Bytes → Option Ipv4
unfolding split all_bytes digits_value
parse_ipv4 s = four (octets (split b'.' s))

abbrev prefix_parts : List Bytes → Option (Ipv4 × ℕ)
prefix_parts (a ∷ b ∷ []) = elim (parse_ipv4 a) [
  | none ↦ none
  | some ip ↦ elim (canonical 32 b) [ none ↦ none | some bits ↦ some (ip, bits) ]
]
prefix_parts _ = none

-- `netip.ParsePrefix(s)` where it gives a prefix of an address with `Is4()`
unfoldable pub parse_prefix4 : Bytes → Option (Ipv4 × ℕ)
unfolding parse_ipv4
parse_prefix4 s = prefix_parts (split b'/' s)

-- The third byte of a white space of three bytes that begins with 0xE2 0x80
abbrev after_e2_80 : ℕ → ℕ
after_e2_80 c = if leb 0x80 c && leb c 0x8a || (c == 0xa8 || (c == 0xa9 || c == 0xaf)) then 3 else 0

-- The bytes of the white space (`unicode.IsSpace`) at the front of a text; 0 if there is none
abbrev pub space_length : Bytes → ℕ
space_length [] = 0
space_length (a ∷ []) = if a == b' ' || leb 9 a && leb a 13 then 1 else 0
space_length (a ∷ b ∷ []) =
    if a == b' ' || leb 9 a && leb a 13
    then 1
    else if a == 0xc2 && (b == 0x85 || b == 0xa0)
    then 2
    else 0
space_length (a ∷ b ∷ c ∷ s) =
    if a == b' ' || leb 9 a && leb a 13
    then 1
    else if a == 0xc2 && (b == 0x85 || b == 0xa0)
    then 2
    else if a == 0xe2 && b == 0x80
    then after_e2_80 c
    else if a == 0xe1 && (b == 0x9a && c == 0x80)
        || (a == 0xe2 && (b == 0x81 && c == 0x9f) || a == 0xe3 && (b == 0x80 && c == 0x80))
    then 3
    else 0

-- The bytes of the separator at the front of a text, by `r == ',' || unicode.IsSpace(r)`
abbrev separator_length : Bytes → ℕ
separator_length [] = 0
separator_length (a ∷ s) = if a == b',' then 1 else space_length (a ∷ s)

abbrev flush_word : Bytes → List Bytes → List Bytes
flush_word [] rest = rest
flush_word (c ∷ w) rest = (c ∷ w) ∷ rest

-- `strings.FieldsFunc` with these separators: the word that is read, and the bytes of a separator
-- that are still to be skipped
unfoldable pub fields_from : Bytes → ℕ → Bytes → List Bytes
fields_from word skip [] = flush_word word []
fields_from word (suc skip) (c ∷ s) = fields_from word skip s
fields_from word zero (c ∷ s) =
    let n = separator_length (c ∷ s) in
    let inside = fields_from (word ++ c ∷ []) 0 s in
    let behind = fields_from [] (n - 1) s in if n == 0 then inside else flush_word word behind

-- Only white space; the number is what is left of the white space that was read.
unfoldable pub all_space : ℕ → Bytes → Bool
all_space skip [] = skip == 0
all_space (suc skip) (c ∷ s) = all_space skip s
all_space zero (c ∷ s) =
    let n = space_length (c ∷ s) in let rest = all_space (n - 1) s in if n == 0 then false else rest

unfoldable pub trim_left : ℕ → Bytes → Bytes
trim_left skip [] = []
trim_left (suc skip) (c ∷ s) = trim_left skip s
trim_left zero (c ∷ s) =
    let n = space_length (c ∷ s) in let rest = trim_left (n - 1) s in if n == 0 then c ∷ s else rest

unfoldable pub trim_right : Bytes → Bytes
unfolding all_space
trim_right [] = []
trim_right (c ∷ s) = let rest = trim_right s in if all_space 0 (c ∷ s) then [] else c ∷ rest

-- `strings.TrimSpace`
unfoldable pub trim_space : Bytes → Bytes
unfolding trim_left trim_right
trim_space s = trim_right (trim_left 0 s)
