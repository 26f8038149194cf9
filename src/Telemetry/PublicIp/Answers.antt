-- ===== src/Telemetry/PublicIp/Answers.antt =====
-- The values that `refreshPublicIPs` (dashboard.go) remembers.
use yachtsense_link_emulator.Common.{
  ℕ, ◌+◌, ◌*◌, Bool, true, false, [], ◌∷◌, Option, none, some, ltb, if◌then◌else◌, All, ◌≡◌, refl,
  subst, ◌⊎◌, inl, inr, Bool-cases,
}
use yachtsense_link_emulator.Common.Bytes.{Bytes, equal}
use yachtsense_link_emulator.Config.Text.{trim_space}
use yachtsense_link_emulator.Engine.Observe.{Table, lookup, remove}
use yachtsense_link_emulator.Telemetry.PublicIp.{
  usable_public_ipv4, PublicIpEntry, minute, answered, drop_stale,
}

-- A value is empty, or the text of an answer that is usable.
abbrev pub IsAnswer : Bytes → Type 0
IsAnswer value =
    (value ≡ []) ⊎ ((b : Bytes) × (usable_public_ipv4 b ≡ true) × (value ≡ trim_space b))

abbrev pub AreAnswers : Table PublicIpEntry → Type 0
AreAnswers cache = All (λ x. IsAnswer x.1.value) cache

pub answered-IsAnswer : (o : Option Bytes) → IsAnswer (answered o)
answered-IsAnswer none = inl refl
answered-IsAnswer (some b) = elim (Bool-cases (usable_public_ipv4 b)) [
  | inl usable ↦ inr (b, usable, rw usable refl)
  | inr useless ↦ inl (rw useless refl)
]

pub lookup-AreAnswers :
    (k : Bytes) (cache : Table PublicIpEntry) (e : PublicIpEntry)
    → AreAnswers cache
    → lookup k cache ≡ some e
    → IsAnswer e.value
unfolding lookup
lookup-AreAnswers k [] e h found = absurd (cc found)
lookup-AreAnswers k ((j, f) ∷ cache) e h found = elim (Bool-cases (equal j k)) [
  | inl same ↦ let here : f ≡ e = cc (rw same at found) in subst (λ x. IsAnswer x.value) here h.0
  | inr other ↦ lookup-AreAnswers k cache e h.1 (rw other at found)
]

pub if-AreAnswers :
    (b : Bool) (x y : Table PublicIpEntry)
    → AreAnswers x
    → AreAnswers y
    → AreAnswers (if b then x else y)
if-AreAnswers true x y h k = h
if-AreAnswers false x y h k = k

pub remove-AreAnswers :
    (k : Bytes) (cache : Table PublicIpEntry) → AreAnswers cache → AreAnswers (remove k cache)
unfolding remove
remove-AreAnswers k [] h = tt
remove-AreAnswers k ((j, e) ∷ cache) h =
    if-AreAnswers (equal j k) _ _ (remove-AreAnswers k cache h.1)
      (h.0, remove-AreAnswers k cache h.1)

pub drop_stale-AreAnswers :
    (now : ℕ) (cache : Table PublicIpEntry) → AreAnswers cache → AreAnswers (drop_stale now cache)
unfolding drop_stale
drop_stale-AreAnswers now [] h = tt
drop_stale-AreAnswers now ((k, e) ∷ cache) h =
    if-AreAnswers (ltb (e.checked + 2 * minute) now) _ _ (drop_stale-AreAnswers now cache h.1)
      (h.0, drop_stale-AreAnswers now cache h.1)
