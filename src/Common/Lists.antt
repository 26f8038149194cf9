-- ===== src/Common/Lists.antt =====
-- Lists measured and cut by native numbers, under the library's names.
use Prim.Native.Nat.{ℕ, zero, suc, ◌+◌, ◌-◌, ◌≤◌}
use mathlib.Core.Path.{◌≡◌, refl, ap}
use mathlib.Core.List.{List, [], ◌∷◌, ◌++◌, Mem, mem-cons_self, mem-cons_of_mem}
use native.Mathlib.Omega.{arith}
use native.Mathlib.Nat.{zero-add, suc-add}

module _ {ℓ} {A : Type ℓ} where
  abbrev pub length : List A → ℕ
  length [] = 0
  length (x ∷ xs) = suc (length xs)

  abbrev pub get_or : List A → ℕ → A → A
  get_or [] i d = d
  get_or (x ∷ xs) zero d = x
  get_or (x ∷ xs) (suc i) d = get_or xs i d

  abbrev pub take : ℕ → List A → List A
  take zero xs = []
  take (suc n) [] = []
  take (suc n) (x ∷ xs) = x ∷ take n xs

  abbrev pub drop : ℕ → List A → List A
  drop zero xs = xs
  drop (suc n) [] = []
  drop (suc n) (x ∷ xs) = drop n xs

  abbrev pub All {κ} : (A → Type κ) → List A → Type κ
  All P [] = Unit
  All P (x ∷ xs) = P x × All P xs

  pub length-append : (xs ys : List A) → length (xs ++ ys) ≡ length xs + length ys
  length-append [] ys = omega arith
  length-append (x ∷ xs) ys = omega (arith, length-append xs ys)

  pub length-take-le : (n : ℕ) (xs : List A) → length (take n xs) ≤ n
  length-take-le zero xs = omega arith
  length-take-le (suc n) [] = omega arith
  length-take-le (suc n) (x ∷ xs) = omega (arith, length-take-le n xs)

  pub length-take_of_le : (n : ℕ) (xs : List A) → n ≤ length xs → length (take n xs) ≡ n
  length-take_of_le zero xs h = refl
  length-take_of_le (suc n) [] h = omega arith
  length-take_of_le (suc n) (x ∷ xs) h = omega (arith, length-take_of_le n xs)

  pub length-drop : (n : ℕ) (xs : List A) → length (drop n xs) ≡ length xs - n
  length-drop zero xs = omega arith
  length-drop (suc n) [] = omega arith
  length-drop (suc n) (x ∷ xs) = omega (arith, length-drop n xs)

  pub take-append : (xs ys : List A) → take (length xs) (xs ++ ys) ≡ xs
  take-append [] ys = refl
  take-append (x ∷ xs) ys = ap (◌∷◌ x) (take-append xs ys)

  pub drop-append : (xs ys : List A) → drop (length xs) (xs ++ ys) ≡ ys
  drop-append [] ys = refl
  drop-append (x ∷ xs) ys = drop-append xs ys

  pub get_or-append :
      (xs : List A) (y d : A) (ys : List A) → get_or (xs ++ y ∷ ys) (length xs) d ≡ y
  get_or-append [] y d ys = refl
  get_or-append (x ∷ xs) y d ys = get_or-append xs y d ys

  pub drop-nil : (n : ℕ) → drop n [] ≡ []
  drop-nil zero = refl
  drop-nil (suc n) = refl

  pub drop-add : (m n : ℕ) (xs : List A) → drop (m + n) xs ≡ drop n (drop m xs)
  drop-add zero n xs = rw zero-add
  drop-add (suc m) n [] = rw (drop-nil (suc m + n), drop-nil n)
  drop-add (suc m) n (x ∷ xs) = rw suc-add (drop-add m n xs)

  pub get_or-drop : (n : ℕ) (xs : List A) (d : A) → get_or xs n d ≡ get_or (drop n xs) 0 d
  get_or-drop zero [] d = refl
  get_or-drop zero (x ∷ xs) d = refl
  get_or-drop (suc n) [] d = refl
  get_or-drop (suc n) (x ∷ xs) d = get_or-drop n xs d

-- Lists whose elements all have a property
pub All-append {ℓ κ} :
    {A : Type ℓ} (P : A → Type κ) (a b : List A) → All P a → All P b → All P (a ++ b)
All-append P [] b h k = k
All-append P (x ∷ a) b h k = (h.0, All-append P a b h.1 k)

pub All-map {ℓ κ μ} :
    {A : Type ℓ} (P : A → Type κ) (Q : A → Type μ)
    → ((a : A) → P a → Q a)
    → (l : List A) → All P l
    → All Q l
All-map P Q f [] h = tt
All-map P Q f (x ∷ l) h = (f x h.0, All-map P Q f l h.1)

pub All-drop {ℓ κ} : {A : Type ℓ} (P : A → Type κ) (n : ℕ) (l : List A) → All P l → All P (drop n l)
All-drop P zero l h = h
All-drop P (suc n) [] h = tt
All-drop P (suc n) (x ∷ l) h = All-drop P n l h.1

pub All-self {ℓ} : {A : Type ℓ} (l : List A) → All (λ x. Mem x l) l
All-self [] = tt
All-self (x ∷ xs) = (mem-cons_self, All-map _ _ (λ y h. mem-cons_of_mem x h) xs (All-self xs))
