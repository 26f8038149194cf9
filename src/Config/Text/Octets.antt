-- ===== src/Config/Text/Octets.antt =====
-- The numbers of an IPv4 address that was read.
use yachtsense_link_emulator.Common.{
  ℕ, ◌≤◌, Bool, not, ◌&&◌, List, [], ◌∷◌, Option, none, some, ltb, leb, ◌==◌, if◌then◌else◌, length,
  ◌≡◌, refl, subst, All, arith,
}
use yachtsense_link_emulator.Common.Bytes.{Bytes, split}
use yachtsense_link_emulator.Config.Text.{
  Ipv4, parse_ipv4, canonical, four, octets, all_bytes, is_digit, digits_value,
}

canonical-le : (max : ℕ) (s : Bytes) (n : ℕ) → canonical max s ≡ some n → n ≤ max
canonical-le max [] n e = absurd (cc e)
canonical-le max (c ∷ s) n e =
    by_tests (all_bytes is_digit (c ∷ s)) (not (c == b'0' && ltb 0 (length s)))
      (digits_value 0 (c ∷ s)) e
  where
    by_tests :
        (digits plain : Bool) (v : ℕ)
        → (if digits && (plain && leb v max) then some v else none) ≡ some n
        → n ≤ max
    by_tests digits plain v e = ground (arith, e)

-- The four numbers of an address that `parse_ipv4` reads are bytes.
abbrev pub AreOctets : Ipv4 → Type 0
AreOctets (a, b, c, d) = (a ≤ 255) × (b ≤ 255) × (c ≤ 255) × (d ≤ 255)

AtMost : Option ℕ → Type 0
AtMost o = (n : ℕ) → o ≡ some n → n ≤ 255

four-AreOctets :
    (os : List (Option ℕ)) (ip : Ipv4) → All AtMost os → four os ≡ some ip → AreOctets ip
unfolding AtMost
four-AreOctets (some a ∷ some b ∷ some c ∷ some d ∷ []) (p, q, r, s) (ha, hb) e =
    let same : (a, b, c, d) ≡ (p, q, r, s) = cc e in
    subst AreOctets same (ha a refl, hb.0 b refl, hb.1.0 c refl, hb.1.1.0 d refl)
four-AreOctets [] ip h e = absurd (cc e)
four-AreOctets (none ∷ _) ip h e = absurd (cc e)
four-AreOctets (some a ∷ []) ip h e = absurd (cc e)
four-AreOctets (some a ∷ none ∷ _) ip h e = absurd (cc e)
four-AreOctets (some a ∷ some b ∷ []) ip h e = absurd (cc e)
four-AreOctets (some a ∷ some b ∷ none ∷ _) ip h e = absurd (cc e)
four-AreOctets (some a ∷ some b ∷ some c ∷ []) ip h e = absurd (cc e)
four-AreOctets (some a ∷ some b ∷ some c ∷ none ∷ _) ip h e = absurd (cc e)
four-AreOctets (some a ∷ some b ∷ some c ∷ some d ∷ _ ∷ _) ip h e = absurd (cc e)

octets-AtMost : (ps : List Bytes) → All AtMost (octets ps)
unfolding AtMost
octets-AtMost [] = tt
octets-AtMost (p ∷ ps) = (canonical-le 255 p, octets-AtMost ps)

pub parse_ipv4-AreOctets : (s : Bytes) (ip : Ipv4) → parse_ipv4 s ≡ some ip → AreOctets ip
unfolding parse_ipv4
parse_ipv4-AreOctets s ip e =
    four-AreOctets (octets (split b'.' s)) ip (octets-AtMost (split b'.' s)) e
