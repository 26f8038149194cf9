-- ===== src/Common/Results.antt =====
-- Go's `(value, error)` pairs: a value, or one of a component's errors.
use mathlib.Core.Path.{◌≡◌, refl}
use mathlib.Core.Bool.{Bool, true, false}
use mathlib.Core.List.{List, [], ◌∷◌}
use yachtsense_link_emulator.Common.Lists.{All}
use mathlib.Core.Logic.{◌⊎◌, inl, inr}

pub data Result {ℓ κ} (E : Type ℓ) (A : Type κ) : Type (ℓ ⊔ κ) where
  ok : A → Result E A
  err : E → Result E A

infixl 5 ◌>>=◌ ◌>>◌
abbrev pub ◌>>=◌ {ℓ} : {E A B : Type ℓ} → Result E A → (A → Result E B) → Result E B
err reason >>= next = err reason
ok value >>= next = next value

abbrev pub ◌>>◌ {ℓ} : {E B : Type ℓ} → Result E (Unit {ℓ}) → Result E B → Result E B
first >> second = first >>= λ done. second

-- `if b { return e }`
abbrev pub refuse_if {ℓ} : {E : Type ℓ} → Bool → E → Result E (Unit {ℓ})
refuse_if true e = err e
refuse_if false e = ok tt

-- A sequence of such statements, and `return nil` behind them
abbrev pub refuse_first {ℓ} : {E : Type ℓ} → List (Bool × E) → Result E (Unit {ℓ})
refuse_first [] = ok tt
refuse_first ((b, e) ∷ rest) = refuse_if b e >> refuse_first rest

-- A chain that succeeds has succeeded at its first step.
pub >>=-eq-ok {ℓ} :
    {E A B : Type ℓ} (first : Result E A) (next : A → Result E B) {result : B}
    → (first >>= next) ≡ ok result
    → (value : A) × (first ≡ ok value) × (next value ≡ ok result)
>>=-eq-ok (err reason) next h = absurd (cc)
>>=-eq-ok (ok value) next h = (value, refl, h)

pub Result-cases {ℓ κ} :
    {E : Type ℓ} {A : Type κ} (r : Result E A) → ((a : A) × (r ≡ ok a)) ⊎ ((e : E) × (r ≡ err e))
Result-cases (err reason) = inr (reason, refl)
Result-cases (ok value) = inl (value, refl)

pub refuse_if-eq-ok {ℓ} :
    {E B : Type ℓ} (b : Bool) (e : E) (k : Result E B) {x : B}
    → (refuse_if b e >> k) ≡ ok x
    → (b ≡ false) × (k ≡ ok x)
refuse_if-eq-ok true e k h = absurd (cc)
refuse_if-eq-ok false e k h = (refl, h)

-- No statement refuses.
pub refuse_first-All {ℓ} :
    {E : Type ℓ} (l : List (Bool × E)) → refuse_first l ≡ ok tt → All (λ x. x.0 ≡ false) l
refuse_first-All [] h = tt
refuse_first-All ((b, e) ∷ l) h =
    let (off, rest) = refuse_if-eq-ok b e (refuse_first l) h in (off, refuse_first-All l rest)
