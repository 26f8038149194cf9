-- ===== src/Dns/Name/Split.antt =====
-- Splitting a name into labels and joining them again.
use yachtsense_link_emulator.Common.{
  ℕ, Bool, true, false, List, [], ◌∷◌, ◌≡◌, ◌≢◌, refl, ap, ◌∙◌, inl, inr, arith, ◌==◌,
  if◌then◌else◌, Bool-cases,
}
use yachtsense_link_emulator.Common.Bytes.{Bytes, onto_first, split, join, trim_suffix_byte}

pub split-ne-nil : (c : ℕ) (s : Bytes) → (p : Bytes) × (ps : List Bytes) × (split c s ≡ p ∷ ps)
unfolding split
split-ne-nil c [] = ([], [], refl)
split-ne-nil c (x ∷ s) =
    let (p, ps, e) = split-ne-nil c s in
    elim (Bool-cases (x == c)) [
      | inl same ↦ ([], split c s, rw same)
      | inr other ↦ (x ∷ p, ps, rw (other, e))
    ]

join-onto_first :
    (c x : ℕ) (p : Bytes) (ps : List Bytes) → join c (onto_first x (p ∷ ps)) ≡ x ∷ join c (p ∷ ps)
unfolding join
join-onto_first c x p [] = refl
join-onto_first c x p (q ∷ ps) = refl

pub join-split : (c : ℕ) (s : Bytes) → join c (split c s) ≡ s
unfolding split join
join-split c [] = refl
join-split c (x ∷ s) =
    let (p, ps, e) = split-ne-nil c s in
    let ih : join c (p ∷ ps) ≡ s = rw e at (join-split c s) in
    elim (Bool-cases (x == c)) [
      | inl same ↦ ground (arith, e, ih)
      | inr other ↦ rw (other, e) (join-onto_first c x p ps ∙ ap (◌∷◌ x) ih)
    ]

-- The last part is not empty.
abbrev pub EndsFull : List Bytes → Type 0
EndsFull [] = ⊥
EndsFull (p ∷ []) = p ≢ []
EndsFull (p ∷ q ∷ ps) = EndsFull (q ∷ ps)

EndsFull-onto_first :
    (b : Bool) (x y : ℕ) (q : Bytes) (qs : List Bytes)
    → EndsFull (onto_first x (if b then [] ∷ q ∷ qs else onto_first y (q ∷ qs)))
    → EndsFull (if b then [] ∷ q ∷ qs else onto_first y (q ∷ qs))
EndsFull-onto_first true x y q qs h = h
EndsFull-onto_first false x y q [] h = λ e. cc
EndsFull-onto_first false x y q (r ∷ qs) h = h

EndsFull-tail : (p q : Bytes) (ps : List Bytes) → EndsFull (p ∷ q ∷ ps) → EndsFull (q ∷ ps)
EndsFull-tail p q ps h = h

-- The parts behind the first byte of a text end as those of the text.
EndsFull-split :
    (c x y : ℕ) (s : Bytes) → EndsFull (split c (x ∷ y ∷ s)) → EndsFull (split c (y ∷ s))
unfolding split
EndsFull-split c x y s h =
    let (q, qs, e) = split-ne-nil c s in
    elim (Bool-cases (x == c)) [
      | inl same ↦ elim (Bool-cases (y == c)) [
        | inl sep ↦ rw (sep, e) (rw (same, sep, e) at h)
        | inr lab ↦ rw (lab, e) (rw (same, lab, e) at h)
      ]
      | inr other ↦ rw e (EndsFull-onto_first (y == c) x y q qs (rw (other, e) at h))
    ]

-- A text whose last part is not empty does not end in the separator.
pub trim_suffix_byte-EndsFull :
    (c : ℕ) (s : Bytes) → EndsFull (split c s) → trim_suffix_byte c s ≡ s
unfolding trim_suffix_byte split
trim_suffix_byte-EndsFull c [] h = refl
trim_suffix_byte-EndsFull c (x ∷ []) h = elim (Bool-cases (x == c)) [
  | inl same ↦ absurd ((rw same at h) refl)
  | inr other ↦ rw other
]
trim_suffix_byte-EndsFull c (x ∷ y ∷ s) h =
    ap (◌∷◌ x) (trim_suffix_byte-EndsFull c (y ∷ s) (EndsFull-split c x y s h))
