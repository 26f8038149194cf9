-- ===== src/Common/Bytes.antt =====
-- Go strings and byte slices as lists of byte values, and the functions of package `strings` that
-- the program calls on them.
use Prim.Native.Char.{code}
use Prim.Native.String.{String}
use mathlib.Core.Path.{◌≡◌}
use mathlib.Core.Logic.{◌↔◌}
use mathlib.Core.Bool.{Bool, true, false, ◌&&◌, ◌||◌}
use mathlib.Core.List.{List, [], ◌∷◌, ◌++◌, map}
use Prim.Native.Nat.{ℕ, zero, suc, ◌+◌, ◌/◌, ◌%◌}
use native.Mathlib.Omega.{arith}
use yachtsense_link_emulator.Common.Tests.{ltb, leb, ◌==◌, if◌then◌else◌}

abbrev pub Bytes : Type 0
Bytes = List ℕ

-- The code points of a literal; every literal of the program is ASCII, so these are its bytes.
abbrev pub codes : String → Bytes
codes String.[] = []
codes (String.◌∷◌ c s) = code c ∷ codes s

-- `==` on strings
unfoldable pub equal : Bytes → Bytes → Bool
equal [] [] = true
equal (x ∷ xs) (y ∷ ys) = x == y && equal xs ys
equal _ _ = false

pub equal_iff : (s t : Bytes) → (equal s t ≡ true) ↔ (s ≡ t)
unfolding equal
equal_iff [] [] = ground arith
equal_iff [] (y ∷ t) = ground arith
equal_iff (x ∷ s) [] = ground arith
equal_iff (x ∷ s) (y ∷ t) = let tails = equal_iff s t in ground arith

-- `strings.HasPrefix`
unfoldable pub has_prefix : Bytes → Bytes → Bool
has_prefix s [] = true
has_prefix [] (p ∷ ps) = false
has_prefix (x ∷ s) (p ∷ ps) = x == p && has_prefix s ps

-- `strings.HasSuffix`
unfoldable pub has_suffix : Bytes → Bytes → Bool
unfolding equal
has_suffix [] t = equal [] t
has_suffix (x ∷ s) t = equal (x ∷ s) t || has_suffix s t

-- `strings.Contains`
unfoldable pub contains_text : Bytes → Bytes → Bool
unfolding has_prefix
contains_text [] t = has_prefix [] t
contains_text (x ∷ s) t = has_prefix (x ∷ s) t || contains_text s t

-- `strings.Contains` of one byte
unfoldable pub contains_byte : Bytes → ℕ → Bool
contains_byte [] c = false
contains_byte (x ∷ s) c = x == c || contains_byte s c

-- `strings.TrimSuffix(s, c)` for a text `c` of one byte
unfoldable pub trim_suffix_byte : ℕ → Bytes → Bytes
trim_suffix_byte c [] = []
trim_suffix_byte c (x ∷ []) = if x == c then [] else x ∷ []
trim_suffix_byte c (x ∷ y ∷ s) = x ∷ trim_suffix_byte c (y ∷ s)

-- Put a byte in front of the first part.
abbrev pub onto_first : ℕ → List Bytes → List Bytes
onto_first x [] = (x ∷ []) ∷ []
onto_first x (p ∷ ps) = (x ∷ p) ∷ ps

-- `strings.Split(s, c)` for a text `c` of one byte: never empty
unfoldable pub split : ℕ → Bytes → List Bytes
split c [] = [] ∷ []
split c (x ∷ s) = let rest = split c s in if x == c then [] ∷ rest else onto_first x rest

-- `strings.Join(parts, c)` for a text `c` of one byte
unfoldable pub join : ℕ → List Bytes → Bytes
join c [] = []
join c (p ∷ []) = p
join c (p ∷ q ∷ ps) = p ++ (c ∷ join c (q ∷ ps))

-- Lower case of an ASCII byte
abbrev pub lower_byte : ℕ → ℕ
lower_byte c = if leb b'A' c && leb c b'Z' then c + 32 else c

-- No byte from 128 on
unfoldable pub is_ascii : Bytes → Bool
is_ascii [] = true
is_ascii (c ∷ s) = ltb c 128 && is_ascii s

-- `strings.ToLower`: its path for ASCII, and the Unicode case mapping for other texts, which is
-- the parameter `unicode_lower`.
unfoldable pub to_lower : (Bytes → Bytes) → Bytes → Bytes
to_lower unicode_lower s = if is_ascii s then map lower_byte s else unicode_lower s

-- The digits of `strconv.Itoa` in front of `acc`; `suc n` rounds are more than `n` has digits.
unfoldable pub itoa_loop : ℕ → ℕ → Bytes → Bytes
itoa_loop zero n acc = acc
itoa_loop (suc fuel) n acc =
    let more = itoa_loop fuel (n / 10) ((n % 10 + 48) ∷ acc) in
    if ltb n 10 then (n + 48) ∷ acc else more

-- `strconv.Itoa` of a number that is not negative
unfoldable pub itoa : ℕ → Bytes
unfolding itoa_loop
itoa n = itoa_loop (suc n) n []
