-- ===== src/Config/Text/Serial.antt =====
-- `cleanSerial` (dns.go) on its own results.
use yachtsense_link_emulator.Common.{
  ℕ, zero, suc, ◌≤◌, true, false, [], ◌∷◌, ◌≡◌, refl, ap, inl, inr, ltb, if◌then◌else◌, length,
  take, length-take-le, length-take_of_le, subst, ◌↔◌, All, All-map, ◌⊎◌, arith, Bool-cases,
}
use yachtsense_link_emulator.Common.Bytes.{Bytes}
use yachtsense_link_emulator.Config.Text.{is_serial_byte, serial_bytes, or_default, clean_serial}

-- A letter, a digit, `-` or `_`
abbrev pub IsSerialByte : ℕ → Type 0
IsSerialByte c =
    ((97 ≤ c) × (c ≤ 122)) ⊎ ((65 ≤ c) × (c ≤ 90)) ⊎ ((48 ≤ c) × (c ≤ 57)) ⊎ (c ≡ 45) ⊎ (c ≡ 95)

abbrev pub IsSerial : Bytes → Type 0
IsSerial s = All IsSerialByte s

byte_test-IsSerialByte : (c : ℕ) → is_serial_byte c ≡ true → IsSerialByte c
byte_test-IsSerialByte c h = ground arith

IsSerialByte-byte_test : (c : ℕ) → IsSerialByte c → is_serial_byte c ≡ true
IsSerialByte-byte_test c h = ground arith

-- A text that `serial_bytes` leaves as it is
abbrev Kept : Bytes → Type 0
Kept s = All (λ c. is_serial_byte c ≡ true) s

serial_bytes-Kept : (s : Bytes) → Kept (serial_bytes s)
unfolding serial_bytes
serial_bytes-Kept [] = tt
serial_bytes-Kept (c ∷ s) = elim (Bool-cases (is_serial_byte c)) [
  | inl good ↦ rw good (good, serial_bytes-Kept s)
  | inr bad ↦ rw bad (serial_bytes-Kept s)
]

serial_bytes_of_Kept : (s : Bytes) → Kept s → serial_bytes s ≡ s
unfolding serial_bytes
serial_bytes_of_Kept [] h = refl
serial_bytes_of_Kept (c ∷ s) h = rw h.0 (ap (◌∷◌ c) (serial_bytes_of_Kept s h.1))

take-Kept : (n : ℕ) (s : Bytes) → Kept s → Kept (take n s)
take-Kept zero s h = tt
take-Kept (suc n) [] h = tt
take-Kept (suc n) (c ∷ s) h = (h.0, take-Kept n s h.1)

or_default-Kept : (s : Bytes) → Kept s → Kept (or_default s) × (1 ≤ length (or_default s))
or_default-Kept [] h = ((refl, (refl, (refl, (refl, (refl, (refl, (refl, tt))))))), omega arith)
or_default-Kept (c ∷ s) h = (h, omega arith)

long_le : (s : Bytes) → ltb 32 (length s) ≡ true → 32 ≤ length s
long_le s h = ground arith

not_long : (s : Bytes) → length s ≤ 32 → ltb 32 (length s) ≡ false
not_long s h = ground arith

cut_serial :
    (s : Bytes)
    → Kept s × (1 ≤ length s)
    → let t = if ltb 32 (length s) then take 32 s else s in
      Kept t × (1 ≤ length t) × (length t ≤ 32)
cut_serial s (each, some_byte) = elim (Bool-cases (ltb 32 (length s))) [
  | inl long ↦ rw long (
    take-Kept 32 s each,
    omega (arith, length-take_of_le 32 s (long_le s long)),
    length-take-le 32 s,
  )
  | inr short ↦ rw short (each, some_byte, ground arith)
]

-- The cleaned serial has 1 to 32 bytes, all of them letters, digits, `-` or `_`.
pub clean_serial-IsSerial :
    (v : Bytes)
    → IsSerial (clean_serial v) × (1 ≤ length (clean_serial v)) × (length (clean_serial v) ≤ 32)
unfolding clean_serial
clean_serial-IsSerial v =
    let (kept, some_byte, short) =
      cut_serial (or_default (serial_bytes v))
        (or_default-Kept (serial_bytes v) (serial_bytes-Kept v)) in
    (All-map _ _ byte_test-IsSerialByte (clean_serial v) kept, some_byte, short)

or_default_of_pos : (s : Bytes) → 1 ≤ length s → or_default s ≡ s
or_default_of_pos [] h = elim h [ ]
or_default_of_pos (c ∷ s) h = refl

-- A text of that form is left as it is: `validateSettings` accepts exactly the cleaned serials.
clean_serial_of_IsSerial :
    (s : Bytes) → IsSerial s → 1 ≤ length s → length s ≤ 32 → clean_serial s ≡ s
unfolding clean_serial
clean_serial_of_IsSerial s each pos short = rw (
  serial_bytes_of_Kept s (All-map _ _ IsSerialByte-byte_test s each),
  or_default_of_pos s pos,
  not_long s short,
)

-- The cleaned serial has 1 to 32 bytes, each a letter, a digit, `-` or `_`, and a text is its own
-- cleaned serial exactly if it has that form.
pub clean_serial_fixed_iff :
    (v : Bytes)
    → (IsSerial (clean_serial v) × ((1 ≤ length (clean_serial v)) × (length (clean_serial v) ≤ 32)))
      × ((clean_serial v ≡ v) ↔ (IsSerial v × ((1 ≤ length v) × (length v ≤ 32))))
clean_serial_fixed_iff v = (
  let (a, b, c) = clean_serial-IsSerial v in (a, (b, c)),
  (
    λ e. let (a, b, c) = clean_serial-IsSerial v in (subst IsSerial e a, (rw e at b, rw e at c)),
    λ h. clean_serial_of_IsSerial v h.0 h.1.0 h.1.1,
  ),
)

-- Cleaning twice is cleaning once.
pub clean_serial_idem : (v : Bytes) → clean_serial (clean_serial v) ≡ clean_serial v
clean_serial_idem v =
    let (a, b, c) = clean_serial-IsSerial v in clean_serial_of_IsSerial (clean_serial v) a b c
