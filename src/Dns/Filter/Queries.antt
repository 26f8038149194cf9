-- ===== src/Dns/Filter/Queries.antt =====
-- The questions that `filterDNS` (dns.go) lets through.
use mathlib.Core.Bool.{false≢true}
use yachtsense_link_emulator.Common.{
  ℕ, ◌+◌, ◌/◌, ◌%◌, ◌^◌, ◌≤◌, ◌<◌, Bool, true, false, List, [], ◌∷◌, ◌++◌, append-nil, append_assoc,
  some, ◌≡◌, ◌⊎◌, inl, inr, refl, sym, ◌∙◌, length, ok, arith, Bool-cases,
}
use yachtsense_link_emulator.Common.Bytes.{Bytes}
use yachtsense_link_emulator.Dns.Types.{Env, DnsQuestion}
use yachtsense_link_emulator.Dns.Message.Build.{
  append_uint16, uint16_bytes, put_uint16, empty_header,
}
use yachtsense_link_emulator.Dns.Cache.{NameCache, has}
use yachtsense_link_emulator.Dns.Cache.Laws.{Agree, has-Agree}
use yachtsense_link_emulator.Dns.Relevance.{member, raymarine_service_types, or_has, is_in}
use yachtsense_link_emulator.Dns.Filter.{
  wire_or_encode, filter_questions, finish_filter, filter_query,
}
use yachtsense_link_emulator.Dns.Filter.Sound.{Selects, nil, keep, leave, finish_filter-some}

-- A question that concerns the MFD: an IN question for one of its services or for a learned name
pub record IsAsked (env : Env) (now : ℕ) (learned : NameCache) (q : DnsQuestion) : Type 0 where
  pub internet : is_in q.class ≡ true
  pub relevant :
      (member raymarine_service_types q.name ≡ true) ⊎ ((has env now q.name learned).0 ≡ true)

-- The question as it is passed on: its name, its type, and the class IN without the bit that asks for
-- a unicast answer
abbrev pub question_bytes : DnsQuestion → Bytes
question_bytes q = (wire_or_encode q.wire q.name ++ uint16_bytes q.typ) ++ uint16_bytes 1

abbrev pub all_asked : List DnsQuestion → Bytes
all_asked [] = []
all_asked (q ∷ qs) = question_bytes q ++ all_asked qs

or_has-relevant :
    (env : Env) (now : ℕ) (b : Bool) (n : Bytes) (c : NameCache)
    → (or_has env now b n c).0 ≡ true
    → (b ≡ true) ⊎ ((has env now n c).0 ≡ true)
or_has-relevant env now true n c h = inl refl
or_has-relevant env now false n c h = inr h

relevant-or_has :
    (env : Env) (now : ℕ) (b : Bool) (n : Bytes) (c : NameCache)
    → (b ≡ true) ⊎ ((has env now n c).0 ≡ true)
    → (or_has env now b n c).0 ≡ true
relevant-or_has env now true n c h = refl
relevant-or_has env now false n c (inl e) = absurd (cc e)
relevant-or_has env now false n c (inr e) = e

or_has-Agree :
    (env : Env) (now : ℕ) (b : Bool) (n : Bytes) (c d : NameCache)
    → Agree env now c d
    → ((or_has env now b n d).0 ≡ (or_has env now b n c).0)
      × Agree env now c (or_has env now b n d).1
or_has-Agree env now true n c d same = (refl, same)
or_has-Agree env now false n c d same = (sym (same n), has-Agree env now n c d same)

-- What the loop appends for the questions, and how many they are
abbrev Asks : Env → ℕ → NameCache → List DnsQuestion → Bytes → ℕ → Bytes → ℕ → Type 0
Asks env now learned qs p count q n =
    (ks : List DnsQuestion) × Selects (IsAsked env now learned) qs ks
    × (q ≡ p ++ all_asked ks)
    × (n ≡ count + length ks)

Asks-keep :
    (env : Env) (now : ℕ) (learned : NameCache) (q : DnsQuestion) (qs : List DnsQuestion)
    (p : Bytes) (count : ℕ) (r : Bytes) (n : ℕ)
    → IsAsked env now learned q
    → Asks env now learned qs
        (append_uint16 (append_uint16 (p ++ wire_or_encode q.wire q.name) q.typ) 1)
        (count + 1)
        r
        n
    → Asks env now learned (q ∷ qs) p count r n
unfolding append_uint16
Asks-keep env now learned q qs p count r n asked (ks, s, e, k) = (
  q ∷ ks,
  keep asked s,
  e ∙ joined (wire_or_encode q.wire q.name) (uint16_bytes q.typ) (uint16_bytes 1) (all_asked ks),
  omega (arith, k),
)
  where
    joined : (a b c d : Bytes) → (((p ++ a) ++ b) ++ c) ++ d ≡ p ++ (((a ++ b) ++ c) ++ d)
    joined a b c d = simp append_assoc

filter_questions-Asks :
    (env : Env) (now : ℕ) (learned : NameCache) (qs : List DnsQuestion) (p : Bytes) (count : ℕ)
    (c : NameCache)
    → Agree env now learned c
    → let r = filter_questions env now qs p count c in Asks env now learned qs p count r.0 r.1
unfolding filter_questions
filter_questions-Asks env now learned [] p count c same = ([], nil, sym (append-nil p), omega arith)
filter_questions-Asks env now learned (q ∷ qs) p count c same =
    let b = member raymarine_service_types q.name in
    let (agrees, same') = or_has-Agree env now b q.name learned c same in
    let c' = (or_has env now b q.name c).1 in
    let sent = append_uint16 (append_uint16 (p ++ wire_or_encode q.wire q.name) q.typ) 1 in
    elim (Bool-cases (is_in q.class)) [
      | inr foreign ↦
          let (ks, s, e, k) = filter_questions-Asks env now learned qs p count c same in
          rw foreign (ks, leave (λ x. false≢true (sym foreign ∙ x.internet)) s, e, k)
      | inl internet ↦ elim (Bool-cases (or_has env now b q.name c).0) [
        | inl taken ↦
            rw (internet, taken)
              (Asks-keep env now learned q qs p count _ _
                (record {
                  internet = internet;
                  relevant = or_has-relevant env now b q.name learned (sym agrees ∙ taken);
                })
                (filter_questions-Asks env now learned qs sent (count + 1) c' same'))
        | inr unknown ↦
            let (ks, s, e, k) = filter_questions-Asks env now learned qs p count c' same' in
            rw (internet, unknown)
              (
                ks,
                leave
                    (λ x.
                      false≢true (
                        sym unknown ∙ agrees ∙ relevant-or_has env now b q.name learned x.relevant))
                    s,
                e,
                k,
              )
      ]
    ]

-- The header of a forwarded query: no flags and the number of questions
abbrev pub query_header : ℕ → Bytes
query_header n = 0 ∷ 0 ∷ 0 ∷ 0 ∷ n / 256 % 256 ∷ n % 256 ∷ 0 ∷ 0 ∷ 0 ∷ 0 ∷ 0 ∷ 0 ∷ []

query_end :
    (p tail out : Bytes) (count n : ℕ) (d c' : NameCache)
    → p ≡ empty_header ++ tail
    → count ≡ 0 + n
    → finish_filter (put_uint16 p 4 (count % 2 ^ 16)) count d ≡ ok (some out, c')
    → (out ≡ query_header (n % 2 ^ 16) ++ tail) × (0 < n) × (length out ≤ 9000)
query_end p tail out count n d c' e k h =
    let (same, pos, short) = finish_filter-some _ count d h in
    let k' : count ≡ n = omega (arith, k) in
    (same ∙ unfold put_uint16 uint16_bytes in rw (e, k'), omega arith, rw same short)

-- Of a query the relay sends exactly the IN questions for the MFD's services or for a learned name,
-- in their order and without the wish for a unicast answer, behind a header that counts them, and at
-- most 9000 bytes.
pub filter_query-sends :
    (env : Env) (now : ℕ) (qs : List DnsQuestion) (c c' : NameCache) (out : Bytes)
    → filter_query env now qs c ≡ ok (some out, c')
    → (ks : List DnsQuestion) × Selects (IsAsked env now c) qs ks
      × (out ≡ query_header (length ks % 2 ^ 16) ++ all_asked ks)
      × (0 < length ks)
      × (length out ≤ 9000)
unfolding filter_query
filter_query-sends env now qs c c' out h =
    let r = filter_questions env now qs empty_header 0 c in
    let (ks, s, e, k) = filter_questions-Asks env now c qs empty_header 0 c (λ m. refl) in
    let (same, pos, short) = query_end r.0 (all_asked ks) out r.1 (length ks) r.2 c' e k h in
    (ks, s, same, pos, short)
