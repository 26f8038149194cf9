-- ===== src/Telemetry/PublicIp.antt =====
-- The public address of a link: `usablePublicIPv4` of telemetry_collect.go, and `refreshPublicIPs` of
-- dashboard.go, which asks for it at most once a minute.
pub mod Keys
pub mod Answers
pub mod Remembered
pub mod Fresh
use yachtsense_link_emulator.Common.{
  ℕ, ◌+◌, ◌*◌, ◌/◌, ◌^◌, ◌-◌, ◌≤◌, ◌<◌, Bool, true, false, not, ◌&&◌, ◌||◌, List, [], ◌∷◌, ◌++◌,
  Option, none, some, ltb, leb, ◌==◌, if◌then◌else◌, length, All, All-map, ◌≡◌, ◌≢◌, refl, ◌⊎◌, inl,
  inr, arith, Bool-cases, Option-cases,
}
use yachtsense_link_emulator.Common.Bytes.{Bytes, codes, equal}
use yachtsense_link_emulator.Dns.Cache.{second}
use yachtsense_link_emulator.Config.Text.{Ipv4, parse_ipv4, safe_interface, trim_space}
use yachtsense_link_emulator.Config.Text.Octets.{AreOctets, parse_ipv4-AreOctets}
use yachtsense_link_emulator.Config.Interfaces.{is_private}
use yachtsense_link_emulator.Engine.Observe.{Table, lookup, store}
use yachtsense_link_emulator.Dashboard.{Prefix, contains_ip, value_of}

-- The networks that are no public ones
abbrev pub reserved : List Prefix
reserved =
    ((100, 64, 0, 0), 10)
    ∷ ((169, 254, 0, 0), 16)
    ∷ ((192, 0, 0, 0), 24)
    ∷ ((192, 0, 2, 0), 24)
    ∷ ((198, 18, 0, 0), 15)
    ∷ ((198, 51, 100, 0), 24)
    ∷ ((203, 0, 113, 0), 24)
    ∷ ((240, 0, 0, 0), 4)
    ∷ []

unfoldable pub in_none : List Prefix → Ipv4 → Bool
unfolding contains_ip
in_none [] a = true
in_none (p ∷ ps) a = not (contains_ip p a) && in_none ps a

-- `a.IsGlobalUnicast()`: not unspecified, broadcast, loopback, multicast or link-local
abbrev pub is_global_unicast : Ipv4 → Bool
is_global_unicast (a, b, c, d) =
    not (a == 0 && (b == 0 && (c == 0 && d == 0)))
    && (not (a == 255 && (b == 255 && (c == 255 && d == 255)))
        && (not (a == 127) && (not (leb 224 a && leb a 239) && not (a == 169 && b == 254))))

abbrev pub is_usable : Option Ipv4 → Bool
is_usable none = false
is_usable (some a) = is_global_unicast a && (not (is_private a) && in_none reserved a)

-- `usablePublicIPv4`
unfoldable pub usable_public_ipv4 : Bytes → Bool
unfolding in_none parse_ipv4 trim_space
usable_public_ipv4 value = is_usable (parse_ipv4 (trim_space value))

-- The part of a link of the internet view that is read and written
pub record Link : Type 0 where
  pub state : Bytes
  pub device : Bytes
  pub ip : Bytes
  pub public_ip : Bytes

-- `publicIPEntry`
pub record PublicIpEntry : Type 0 where
  pub value : Bytes
  pub checked : ℕ

abbrev pub minute : ℕ
minute = 60 * second

-- What a request gives, none where it fails
abbrev pub answered : Option Bytes → Bytes
answered none = []
answered (some b) = if usable_public_ipv4 b then trim_space b else []

abbrev pub is_recent : ℕ → Option PublicIpEntry → Bool
is_recent now none = false
is_recent now (some e) = leb now (e.checked + minute)

abbrev pub value_or_empty : Option PublicIpEntry → Bytes
value_or_empty none = []
value_or_empty (some e) = e.value

-- One turn of the loop; `fetch` runs the request through a device.
unfoldable pub refresh_link :
    (Bytes → Option Bytes) → ℕ → Link → Table PublicIpEntry → Link × Table PublicIpEntry
unfolding lookup store equal safe_interface
refresh_link fetch now l cache =
    let key = l.device ++ b'/' ∷ l.ip in
    let old = lookup key cache in
    let value = answered (fetch l.device) in
    if not (equal l.state (codes "active")) || not (safe_interface l.device)
    then (l, cache)
    else if is_recent now old
    then (record l { public_ip = value_or_empty old }, cache)
    else (record l { public_ip = value }, store key (record { value = value; checked = now }) cache)

unfoldable pub refresh_links :
    (Bytes → Option Bytes) → ℕ → List Link → Table PublicIpEntry → List Link × Table PublicIpEntry
unfolding refresh_link
refresh_links fetch now [] cache = ([], cache)
refresh_links fetch now (l ∷ ls) cache =
    let (l', cache') = refresh_link fetch now l cache in
    let (ls', cache'') = refresh_links fetch now ls cache' in (l' ∷ ls', cache'')

unfoldable pub drop_stale : ℕ → Table PublicIpEntry → Table PublicIpEntry
drop_stale now [] = []
drop_stale now ((k, e) ∷ cache) =
    let rest = drop_stale now cache in
    if ltb (e.checked + 2 * minute) now then rest else (k, e) ∷ rest

-- `refreshPublicIPs`
unfoldable pub refresh_public_ips :
    (Bytes → Option Bytes) → ℕ → List Link → Table PublicIpEntry → List Link × Table PublicIpEntry
unfolding refresh_links drop_stale
refresh_public_ips fetch now links cache =
    let (links', cache') = refresh_links fetch now links cache in
    (links', if ltb 64 (length cache') then drop_stale now cache' else cache')

-- An address that may be shown as public, by its numbers: none of the private, shared, local,
-- documentation, benchmark, multicast and reserved networks
pub record IsPublicIp (a b c d : ℕ) : Type 0 where
  pub ten : a ≢ 10
  pub home : a ≢ 127
  pub above : a < 224
  pub local : (a ≢ 169) ⊎ (b ≢ 254)
  pub shared : (a ≢ 100) ⊎ (b < 64) ⊎ (128 ≤ b)
  pub private_b : (a ≢ 172) ⊎ (b < 16) ⊎ (32 ≤ b)
  pub private_c : (a ≢ 192) ⊎ (b ≢ 168)
  pub benchmark : (a ≢ 198) ⊎ (b < 18) ⊎ (20 ≤ b)

and-true : (x y : Bool) → (x && y) ≡ true → (x ≡ true) × (y ≡ true)
and-true true y h = (refl, h)
and-true false y h = absurd (cc h)

outside_shared :
    (a b c d : ℕ)
    → AreOctets (a, b, c, d)
    → not (contains_ip ((100, 64, 0, 0), 10) (a, b, c, d)) ≡ true
    → (a ≢ 100) ⊎ (b < 64) ⊎ (128 ≤ b)
unfolding contains_ip
outside_shared a b c d (ha, hb, hc, hd) h = ground arith

outside_benchmark :
    (a b c d : ℕ)
    → AreOctets (a, b, c, d)
    → not (contains_ip ((198, 18, 0, 0), 15) (a, b, c, d)) ≡ true
    → (a ≢ 198) ⊎ (b < 18) ⊎ (20 ≤ b)
unfolding contains_ip
outside_benchmark a b c d (ha, hb, hc, hd) h = ground arith

outside_reserved :
    (a b c d : ℕ)
    → AreOctets (a, b, c, d)
    → not (contains_ip ((240, 0, 0, 0), 4) (a, b, c, d)) ≡ true
    → a < 240
unfolding contains_ip
outside_reserved a b c d (ha, hb, hc, hd) h = ground arith

outside_private :
    (a b c d : ℕ)
    → not (is_private (a, b, c, d)) ≡ true
    → (a ≢ 10) × ((a ≢ 172) ⊎ (b < 16) ⊎ (32 ≤ b)) × ((a ≢ 192) ⊎ (b ≢ 168))
outside_private a b c d h = (λ e. ground arith, ground arith, ground arith)

not_127 : (a : ℕ) → not (a == 127) ≡ true → a ≢ 127
not_127 a h e = ground arith

below_224 : (a : ℕ) → a < 240 → not (leb 224 a && leb a 239) ≡ true → a < 224
below_224 a h k = ground arith

not_169 : (a b : ℕ) → not (a == 169 && b == 254) ≡ true → (a ≢ 169) ⊎ (b ≢ 254)
not_169 a b h = ground arith

in_none-All :
    (ps : List Prefix) (ip : Ipv4)
    → in_none ps ip ≡ true
    → All (λ p. not (contains_ip p ip) ≡ true) ps
unfolding in_none
in_none-All [] ip h = tt
in_none-All (p ∷ ps) ip h =
    let (out, rest) = and-true (not (contains_ip p ip)) (in_none ps ip) h in
    (out, in_none-All ps ip rest)

is_global_unicast-tests :
    (a b c d : ℕ)
    → is_global_unicast (a, b, c, d) ≡ true
    → (not (a == 127) ≡ true)
      × (not (leb 224 a && leb a 239) ≡ true)
      × (not (a == 169 && b == 254) ≡ true)
is_global_unicast-tests a b c d h =
    let last = not (leb 224 a && leb a 239) && not (a == 169 && b == 254) in
    let h1 = and-true (not (a == 0 && (b == 0 && (c == 0 && d == 0)))) _ h in
    let h2 =
      and-true (not (a == 255 && (b == 255 && (c == 255 && d == 255)))) (not (a == 127) && last)
        h1.1 in
    let h3 = and-true (not (a == 127)) last h2.1 in
    let h4 = and-true (not (leb 224 a && leb a 239)) (not (a == 169 && b == 254)) h3.1 in
    (h3.0, h4.0, h4.1)

is_usable-IsPublicIp :
    (a b c d : ℕ)
    → AreOctets (a, b, c, d)
    → is_usable (some (a, b, c, d)) ≡ true
    → IsPublicIp a b c d
is_usable-IsPublicIp a b c d octets h =
    let ip : Ipv4 = (a, b, c, d) in
    let (global, rest) =
      and-true (is_global_unicast ip) (not (is_private ip) && in_none reserved ip) h in
    let (not_private, free) = and-true (not (is_private ip)) (in_none reserved ip) rest in
    let out = in_none-All reserved ip free in
    let (ten, in_b, in_c) = outside_private a b c d not_private in
    let (home, multicast, local) = is_global_unicast-tests a b c d global in
    record {
      ten = ten;
      home = not_127 a home;
      above = below_224 a (outside_reserved a b c d octets out.1.1.1.1.1.1.1.0) multicast;
      local = not_169 a b local;
      shared = outside_shared a b c d octets out.0;
      private_b = in_b;
      private_c = in_c;
      benchmark = outside_benchmark a b c d octets out.1.1.1.1.0;
    }

-- An answer that is taken for a public address is an IPv4 address outside the private, shared, local,
-- benchmark, multicast and reserved networks.
pub usable_public_ipv4-IsPublicIp :
    (value : Bytes)
    → usable_public_ipv4 value ≡ true
    → (a : ℕ) × (b : ℕ) × (c : ℕ) × (d : ℕ) × (parse_ipv4 (trim_space value) ≡ some (a, b, c, d))
      × IsPublicIp a b c d
unfolding usable_public_ipv4
usable_public_ipv4-IsPublicIp value h = by_parse (parse_ipv4 (trim_space value)) refl h
  where
    by_parse :
        (o : Option Ipv4)
        → parse_ipv4 (trim_space value) ≡ o
        → is_usable o ≡ true
        → (a : ℕ) × (b : ℕ) × (c : ℕ) × (d : ℕ) × (parse_ipv4 (trim_space value)
            ≡ some (a, b, c, d))
          × IsPublicIp a b c d
    by_parse none e k = absurd (cc k)
    by_parse (some (a, b, c, d)) e k = (
      a,
      b,
      c,
      d,
      e,
      is_usable-IsPublicIp a b c d (parse_ipv4-AreOctets (trim_space value) (a, b, c, d) e) k,
    )
