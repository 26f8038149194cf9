-- ===== src/Dns/Name/Decode.antt =====
-- What `decodeName` (dns.go) returns.
use yachtsense_link_emulator.Common.{
  All-append, ℕ, zero, suc, ◌+◌, ◌-◌, ◌*◌, ◌%◌, ◌≤◌, ◌<◌, List, [], ◌∷◌, ◌++◌, append-nil,
  append_assoc, ◌≡◌, ◌≢◌, refl, sym, ◌∙◌, inl, inr, arith, ltb, leb, ◌==◌, ◌||◌, Bool-cases, length,
  take, drop, length-take_of_le, length-drop, All, ok, err, >>=-eq-ok, ◌>>=◌, Result-cases,
}
use yachtsense_link_emulator.Common.Bytes.{Bytes}
use yachtsense_link_emulator.Dns.Types.{
  Env, DnsError, DnsResult, out_of_fuel, unterminated_name, truncated_pointer, forward_pointer,
  invalid_label, name_too_long,
}
use yachtsense_link_emulator.Dns.Name.{
  Decoded, byte_at, unless_empty, finish_name, decode_loop, decode_level, decode_name,
}
use yachtsense_link_emulator.Dns.Name.Labels.{IsLabel, IsWire, wire_labels, wire_labels-append}

-- What holds of a decoded name that was read from `start` on
pub record Sound (packet : Bytes) (start : ℕ) (d : Decoded) : Type 0 where
  pub wire : IsWire d.wire
  pub after : start < d.next
  pub within : d.next ≤ length packet

finish_name-parts :
    (env : Env) (next : ℕ) (wire : Bytes) (labels : List Bytes) {d : Decoded}
    → finish_name env next wire labels ≡ ok d
    → (d.wire ≡ wire) × (d.next ≡ next) × (length wire ≤ 255)
unfolding finish_name
finish_name-parts env next wire labels {d} h = ground arith

finish_name-ne-out_of_fuel :
    (env : Env) (next : ℕ) (wire : Bytes) (labels : List Bytes)
    → finish_name env next wire labels ≢ err out_of_fuel
unfolding finish_name
finish_name-ne-out_of_fuel env next wire labels h = ground arith

-- The four ways in which a round of the loop of `decodeName` goes on
data Round (env : Env) (follow : ℕ → DnsResult Decoded) (packet : Bytes) (fuel off : ℕ)
    (wire : Bytes) (labels : List Bytes) (r : DnsResult Decoded) : Type 0 where
  refused :
      (e : DnsError) → e ≢ out_of_fuel → r ≡ err e → Round env follow packet fuel off wire labels r
  at_root :
      off < length packet
      → r ≡ finish_name env (off + 1) (wire ++ 0 ∷ []) labels
      → Round env follow packet fuel off wire labels r
  at_pointer :
      (ptr : ℕ)
      → off + 1 < length packet
      → r ≡ (
          follow ptr >>= λ tail.
          finish_name env (off + 2) (wire ++ tail.wire) (labels ++ unless_empty tail.name))
      → Round env follow packet fuel off wire labels r
  at_label :
      (n : ℕ) (label : Bytes)
      → 1 ≤ n
      → n ≤ 63
      → off + 1 + n ≤ length packet
      → label ≡ take n (drop (off + 1) packet)
      → r
        ≡ decode_loop env follow packet fuel
            (off + 1 + n)
            (wire ++ n ∷ label)
            (labels ++ label ∷ [])
      → Round env follow packet fuel off wire labels r

module _ (env : Env) (follow : ℕ → DnsResult Decoded) (packet : Bytes) where
  decode_loop-Round :
      (fuel off : ℕ) (wire : Bytes) (labels : List Bytes)
      → Round env follow packet fuel off wire labels
          (decode_loop env follow packet (suc fuel) off wire labels)
  unfolding decode_loop
  decode_loop-Round fuel off wire labels =
      let n = byte_at packet off in
      let ptr = n % 64 * 256 + byte_at packet (off + 1) in
      let label = take n (drop (off + 1) packet) in
      elim (Bool-cases (leb (length packet) off)) [
        | inl e ↦ refused unterminated_name (λ x. cc) (rw e)
        | inr e ↦ elim (Bool-cases (n == 0)) [
          | inl z ↦ at_root (ground arith) (rw (e, z))
          | inr z ↦ elim (Bool-cases (leb 192 n)) [
            | inl p ↦ elim (Bool-cases (leb (length packet) (off + 1))) [
              | inl t ↦ refused truncated_pointer (λ x. cc) (rw (e, z, p, t))
              | inr t ↦ elim (Bool-cases (leb off ptr)) [
                | inl f ↦ refused forward_pointer (λ x. cc) (rw (e, z, p, t, f))
                | inr f ↦ at_pointer ptr (ground arith) (rw (e, z, p, t, f))
              ]
            ]
            | inr p ↦ elim (Bool-cases (ltb 63 n || ltb (length packet) (off + 1 + n))) [
              | inl l ↦ refused invalid_label (λ x. cc) (rw (e, z, p, l))
              | inr l ↦ elim (Bool-cases (ltb 254 (length (wire ++ n ∷ label)))) [
                | inl o ↦ refused name_too_long (λ x. cc) (rw (e, z, p, l, o))
                | inr o ↦
                    at_label n label (ground arith) (ground arith) (ground arith) refl
                      (rw (e, z, p, l, o))
              ]
            ]
          ]
        ]
      ]

  Round-ne-out_of_fuel :
      {fuel off : ℕ} {wire : Bytes} {labels : List Bytes} {r : DnsResult Decoded}
      → ((p : ℕ) → follow p ≢ err out_of_fuel)
      → ((n : ℕ) (label : Bytes)
          → off + 1 + n ≤ length packet
          → decode_loop env follow packet fuel
              (off + 1 + n)
              (wire ++ n ∷ label)
              (labels ++ label ∷ [])
            ≢ err out_of_fuel)
      → Round env follow packet fuel off wire labels r
      → r ≢ err out_of_fuel
  Round-ne-out_of_fuel ends more (refused e ne same) h = ne (ground arith)
  Round-ne-out_of_fuel ends more (at_root inside same) h =
      finish_name-ne-out_of_fuel env _ _ _ (sym same ∙ h)
  Round-ne-out_of_fuel {off} {wire} {labels} ends more (at_pointer ptr inside same) h =
      elim (Result-cases (follow ptr)) [
        | inl (tail, e) ↦ finish_name-ne-out_of_fuel env _ _ _ (sym (rw e at same) ∙ h)
        | inr (x, e) ↦ ends ptr (e ∙ (sym (rw e at same) ∙ h))
      ]
  Round-ne-out_of_fuel ends more (at_label n label a b c d same) h = more n label c (sym same ∙ h)

  -- The loop ends before its fuel does, if the pointers' names end.
  decode_loop-ne-out_of_fuel :
      ((p : ℕ) → follow p ≢ err out_of_fuel)
      → (fuel off : ℕ) (wire : Bytes) (labels : List Bytes) → off ≤ length packet
      → length packet < fuel + off
      → decode_loop env follow packet fuel off wire labels ≢ err out_of_fuel
  decode_loop-ne-out_of_fuel ends zero off wire labels inside room = absurd (omega arith)
  decode_loop-ne-out_of_fuel ends (suc fuel) off wire labels inside room =
      Round-ne-out_of_fuel ends
        (λ n label h. decode_loop-ne-out_of_fuel ends fuel (off + 1 + n) _ _ h (omega arith))
        (decode_loop-Round fuel off wire labels)

  finish_name-Sound :
      (start next : ℕ) (seen : List Bytes) (wire : Bytes) (labels : List Bytes) {d : Decoded}
      → All IsLabel seen
      → wire ≡ wire_labels seen ++ 0 ∷ []
      → start < next
      → next ≤ length packet
      → finish_name env next wire labels ≡ ok d
      → Sound packet start d
  finish_name-Sound start next seen wire labels {d} each spelled low high h =
      let (w, n, short) = finish_name-parts env next wire labels h in
      record {
        wire = record { labels = seen; each = each; spelled = w ∙ spelled; short = rw w short };
        after = rw n low;
        within = rw n high;
      }

  -- After a pointer: what was read so far, then the labels of the name pointed to
  pointer-Sound :
      (start off ptr : ℕ) (seen : List Bytes) (wire : Bytes) (labels : List Bytes) (d : Decoded)
      → ((p : ℕ) (t : Decoded) → follow p ≡ ok t → IsWire t.wire)
      → All IsLabel seen
      → wire ≡ wire_labels seen
      → start ≤ off
      → off + 1 < length packet
      → (t : Decoded) × (follow ptr ≡ ok t)
        × (finish_name env (off + 2) (wire ++ t.wire) (labels ++ unless_empty t.name) ≡ ok d)
      → Sound packet start d
  pointer-Sound start off ptr seen wire labels d good each spelled low inside (t, e, k) =
      let w = good ptr t e in
      let same : wire ++ t.wire ≡ wire_labels (seen ++ w.labels) ++ 0 ∷ [] =
        rw (spelled, w.spelled, wire_labels-append seen w.labels)
          (sym (append_assoc (wire_labels seen) _ _)) in
      finish_name-Sound start (off + 2) (seen ++ w.labels) (wire ++ t.wire)
        (labels ++ unless_empty t.name) (All-append IsLabel seen w.labels each w.each) same
        (omega arith) (omega arith) k

  snoc_wire :
      (seen : List Bytes) (wire : Bytes) (n : ℕ) (label : Bytes)
      → wire ≡ wire_labels seen
      → n ≡ length label
      → wire ++ n ∷ label ≡ wire_labels (seen ++ label ∷ [])
  snoc_wire seen wire n label spelled e =
      rw (wire_labels-append seen (label ∷ []), spelled, e, append-nil label)

  -- What the loop has collected, and what it returns
  decode_loop-Sound :
      ((p : ℕ) (t : Decoded) → follow p ≡ ok t → IsWire t.wire)
      → (fuel start off : ℕ) (seen : List Bytes) (wire : Bytes) (labels : List Bytes) {d : Decoded}
      → All IsLabel seen
      → wire ≡ wire_labels seen
      → start ≤ off
      → decode_loop env follow packet fuel off wire labels ≡ ok d
      → Sound packet start d
  decode_loop-Sound good zero start off seen wire labels each spelled low h =
      absurd (unfold decode_loop in cc)
  decode_loop-Sound good (suc fuel) start off seen wire labels {d} each spelled low h =
      go
        (λ n label one e.
          decode_loop-Sound good fuel start (off + 1 + n) (seen ++ label ∷ []) (wire ++ n ∷ label)
            (labels ++ label ∷ []) (All-append IsLabel seen (label ∷ []) each (one, tt))
            (snoc_wire seen wire n label spelled e) (omega arith))
        (decode_loop-Round fuel off wire labels) h
    where
      go :
          {r : DnsResult Decoded}
          → ((n : ℕ) (label : Bytes)
              → IsLabel label
              → n ≡ length label
              → decode_loop env follow packet fuel
                  (off + 1 + n)
                  (wire ++ n ∷ label)
                  (labels ++ label ∷ [])
                ≡ ok d
              → Sound packet start d)
          → Round env follow packet fuel off wire labels r
          → r ≡ ok d
          → Sound packet start d
      go more (refused e ne same) h = absurd (cc)
      go more (at_root inside same) h =
          finish_name-Sound start (off + 1) seen _ labels each (rw spelled) (omega arith)
            (omega arith) (sym same ∙ h)
      go more (at_pointer ptr inside same) h =
          pointer-Sound start off ptr seen wire labels d good each spelled low inside
            (>>=-eq-ok (follow ptr) _ (sym same ∙ h))
      go more (at_label n label a b c e same) h =
          let len : n ≡ length label =
            rw e (sym (length-take_of_le n _ (rw length-drop (omega arith)))) in
          more n label (omega arith, omega arith) len (sym same ∙ h)

decode_level-ne-out_of_fuel :
    (env : Env) (packet : Bytes) (level start : ℕ)
    → decode_level env packet level start ≢ err out_of_fuel
unfolding decode_level
decode_level-ne-out_of_fuel env packet zero start = λ h. cc
decode_level-ne-out_of_fuel env packet (suc level) start =
    elim (Bool-cases (leb (length packet) start)) [
      | inl past ↦ rw past (λ h. cc)
      | inr inside ↦ rw inside (
          decode_loop-ne-out_of_fuel env _ packet (decode_level-ne-out_of_fuel env packet level)
            (suc (length packet)) start [] [] (ground arith) (omega arith))
    ]

decode_level-Sound :
    (env : Env) (packet : Bytes) (level start : ℕ) (d : Decoded)
    → decode_level env packet level start ≡ ok d
    → Sound packet start d
unfolding decode_level
decode_level-Sound env packet zero start d = λ h. absurd (cc)
decode_level-Sound env packet (suc level) start d = elim (Bool-cases (leb (length packet) start)) [
  | inl past ↦ rw past (λ h. absurd (cc))
  | inr inside ↦ rw inside (
      decode_loop-Sound env _ packet (λ p t e. (decode_level-Sound env packet level p t e).wire)
        (suc (length packet)) start start [] [] [] tt refl (omega arith))
]

-- Decoding a name always ends: on every packet, offset and depth the model's fuel suffices.
pub decode_name-ne-out_of_fuel :
    (env : Env) (packet : Bytes) (start depth : ℕ)
    → decode_name env packet start depth ≢ err out_of_fuel
unfolding decode_name
decode_name-ne-out_of_fuel env packet start depth =
    decode_level-ne-out_of_fuel env packet (13 - depth) start

-- A name that `decodeName` returns ends inside the packet and behind `start`, and the wire name
-- kept with it is uncompressed: labels of 1 to 63 bytes, then the root, at most 255 bytes.
pub decode_name-Sound :
    (env : Env) (packet : Bytes) (start depth : ℕ) (d : Decoded)
    → decode_name env packet start depth ≡ ok d
    → Sound packet start d
unfolding decode_name
decode_name-Sound env packet start depth d h = decode_level-Sound env packet (13 - depth) start d h
