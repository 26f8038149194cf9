-- ===== src/Config/Settings/Checks.antt =====
-- What the tests of `validateSettings` say of a number or a text that they accept.
use yachtsense_link_emulator.Common.{
  ℕ, ◌≤◌, Bool, true, false, ◌&&◌, ◌||◌, not, List, [], ◌∷◌, ◌≡◌, refl, ◌≢◌, ltb, leb, ◌==◌, length,
  All, All-map, arith, Bool-cases, inl, inr, ◌⊎◌,
}
use yachtsense_link_emulator.Common.Bytes.{Bytes, codes, equal, equal_iff, contains_byte}
use yachtsense_link_emulator.Common.Int.{ℤ, pos, negsuc}
use yachtsense_link_emulator.Config.Text.{
  safe_interface, printable, no_control, all_bytes, is_alnum,
}
use yachtsense_link_emulator.Config.Settings.{outside, equal_ℤ, all_safe}

-- An integer of a range
pub record InRange (lo hi : ℕ) (x : ℤ) : Type 0 where
  pub value : ℕ
  pub same : x ≡ pos value
  pub least : lo ≤ value
  pub greatest : value ≤ hi

pub not_outside : (lo hi : ℕ) (x : ℤ) → outside (pos lo) (pos hi) x ≡ false → InRange lo hi x
not_outside lo hi (pos n) h = record {
  value = n;
  same = refl;
  least = ground arith;
  greatest = ground arith;
}
not_outside lo hi (negsuc n) h = absurd (ground arith)

pub equal_ℤ_refl : (a b : ℤ) → equal_ℤ a b ≡ false → a ≢ b
equal_ℤ_refl a b h e = absurd (ground arith)

pub or-false : (a b : Bool) → (a || b) ≡ false → (a ≡ false) × (b ≡ false)
or-false true b h = absurd (cc)
or-false false b h = (refl, h)

pub or-false3 : (a b c : Bool) → (a || (b || c)) ≡ false → (a ≡ false) × (b ≡ false) × (c ≡ false)
or-false3 a b c h = let (x, y) = or-false a (b || c) h in let (u, v) = or-false b c y in (x, u, v)

pub or-false4 :
    (a b c d : Bool)
    → (a || (b || (c || d))) ≡ false
    → (a ≡ false) × (b ≡ false) × (c ≡ false) × (d ≡ false)
or-false4 a b c d h =
    let (x, y) = or-false a (b || (c || d)) h in let (u, v, w) = or-false3 b c d y in (x, u, v, w)

pub not-false : (a : Bool) → not a ≡ false → a ≡ true
not-false true h = refl
not-false false h = absurd (cc)

pub and-imp : (a b : Bool) → (a && not b) ≡ false → a ≡ true → b ≡ true
and-imp true b h e = not-false b h
and-imp false b h e = absurd (cc)

pub not_long_le : (n m : ℕ) → ltb n m ≡ false → m ≤ n
not_long_le n m h = ground arith

pub not_short_le : (n : ℕ) → ltb n 1 ≡ false → 1 ≤ n
not_short_le n h = ground arith

-- A letter, a digit, `_`, `.`, `:` or `-`
abbrev pub IsNameByte : ℕ → Type 0
IsNameByte c =
    ((97 ≤ c) × (c ≤ 122))
    ⊎ ((65 ≤ c) × (c ≤ 90))
    ⊎ ((48 ≤ c) × (c ≤ 57))
    ⊎ (c ≡ 95)
    ⊎ (c ≡ 46)
    ⊎ (c ≡ 58)
    ⊎ (c ≡ 45)

-- An interface name that the daemon hands to system tools
pub record IsSafe (n : Bytes) : Type 0 where
  pub some_byte : 1 ≤ length n
  pub short : length n ≤ 15
  pub not_loopback : n ≢ codes "lo"
  pub bytes : All IsNameByte n

all_bytes-All : (p : ℕ → Bool) (s : Bytes) → all_bytes p s ≡ true → All (λ c. p c ≡ true) s
unfolding all_bytes
all_bytes-All p [] h = tt
all_bytes-All p (c ∷ s) h = elim (Bool-cases (p c)) [
  | inl good ↦ (good, all_bytes-All p s (rw good at h))
  | inr bad ↦ absurd (cc (rw bad at h))
]

pub no_byte :
    (p : ℕ → Bool) (d : ℕ) (s : Bytes)
    → p d ≡ false
    → all_bytes p s ≡ true
    → contains_byte s d ≡ false
unfolding all_bytes contains_byte
no_byte p d [] e h = refl
no_byte p d (c ∷ s) e h = elim (Bool-cases (p c)) [
  | inr bad ↦ absurd (cc (rw bad at h))
  | inl good ↦ elim (Bool-cases (c == d)) [
    | inl same ↦ absurd (ground (arith, e, good))
    | inr other ↦ rw other (no_byte p d s e (rw good at h))
  ]
]

byte_test-IsNameByte :
    (c : ℕ) → (is_alnum c || contains_byte (codes "_.:-") c) ≡ true → IsNameByte c
unfolding contains_byte
byte_test-IsNameByte c h = ground arith

equal_refl : (s : Bytes) → equal s s ≡ true
equal_refl s = (equal_iff s s).1 refl

pub safe_interface-IsSafe : (n : Bytes) → safe_interface n ≡ true → IsSafe n
unfolding safe_interface
safe_interface-IsSafe n h =
    elim (Bool-cases (ltb (length n) 1 || (ltb 15 (length n) || equal n (codes "lo")))) [
      | inl bad ↦ absurd (cc (rw bad at h))
      | inr good ↦
          let (long, rest) =
            or-false (ltb (length n) 1) (ltb 15 (length n) || equal n (codes "lo")) good in
          let (short, named) = or-false (ltb 15 (length n)) (equal n (codes "lo")) rest in
          record {
            some_byte = ground (arith, long);
            short = ground (arith, short);
            not_loopback = λ e. absurd (cc (rw (e, equal_refl (codes "lo")) at named));
            bytes = All-map _ _ byte_test-IsNameByte n (all_bytes-All _ n (rw good at h));
          }
    ]

pub all_safe-All : (ns : List Bytes) → all_safe ns ≡ true → All IsSafe ns
unfolding all_safe
all_safe-All [] h = tt
all_safe-All (n ∷ ns) h = elim (Bool-cases (safe_interface n)) [
  | inl good ↦ (safe_interface-IsSafe n good, all_safe-All ns (rw good at h))
  | inr bad ↦ absurd (cc (rw bad at h))
]

pub printable-length :
    (s : Bytes) (max : ℕ) → printable s max ≡ true → (1 ≤ length s) × (length s ≤ max)
unfolding printable
printable-length s max h = elim (Bool-cases (ltb (length s) 1 || ltb max (length s))) [
  | inl bad ↦ absurd (cc (rw bad at h))
  | inr good ↦
      let (a, b) = or-false (ltb (length s) 1) (ltb max (length s)) good in
      (ground (arith, a), ground (arith, b))
]

-- Neither an ASCII control byte nor DEL
no_control-All :
    (after : Bool) (s : Bytes) → no_control after s ≡ true → All (λ c. (32 ≤ c) × (c ≢ 127)) s
unfolding no_control
no_control-All after [] h = tt
no_control-All after (c ∷ s) h = elim (Bool-cases (ltb c 32 || c == 127)) [
  | inl bad ↦ absurd (cc (rw bad at h))
  | inr good ↦ elim (Bool-cases (after && (leb 0x80 c && leb c 0x9f))) [
    | inl bad ↦ absurd (cc (rw (good, bad) at h))
    | inr fine ↦ (
      (ground arith, λ e. absurd (ground (arith, good))),
      no_control-All (c == 0xc2) s (rw (good, fine) at h),
    )
  ]
]

pub printable-All :
    (s : Bytes) (max : ℕ) → printable s max ≡ true → All (λ c. (32 ≤ c) × (c ≢ 127)) s
unfolding printable
printable-All s max h = elim (Bool-cases (ltb (length s) 1 || ltb max (length s))) [
  | inl bad ↦ absurd (cc (rw bad at h))
  | inr good ↦ no_control-All false s (rw good at h)
]
