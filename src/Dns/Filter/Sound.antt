-- ===== src/Dns/Filter/Sound.antt =====
-- The records that `filterDNS` (dns.go) lets through.
use yachtsense_link_emulator.Common.{
  ℕ, ◌+◌, ◌/◌, ◌%◌, ◌^◌, ◌≤◌, ◌<◌, true, false, List, [], ◌∷◌, ◌++◌, append-nil, append_assoc, some,
  ◌≡◌, ◌≢◌, ◌⊎◌, inl, inr, refl, sym, ap, ◌∙◌, length, All, ok, >>=-eq-ok, arith, Bool-cases,
}
use mathlib.Core.Bool.{false≢true}
use yachtsense_link_emulator.Common.Bytes.{Bytes, equal_iff}
use yachtsense_link_emulator.Dns.Types.{Env, DnsRecord}
use yachtsense_link_emulator.Dns.Message.Build.{uint16_bytes, append_rr, put_uint16, empty_header}
use yachtsense_link_emulator.Dns.Message.Records.{rr_bytes, append_rr-ok}
use yachtsense_link_emulator.Dns.Cache.{NameCache, has}
use yachtsense_link_emulator.Dns.Cache.Laws.{Agree, has-Agree}
use yachtsense_link_emulator.Dns.Relevance.{
  member, allowed_instance, is_in, ptr_permitted, response_relevant,
}
use yachtsense_link_emulator.Dns.Filter.{
  packet_hosts, is_skipped, allow_record, forwards, sent_data, filter_records, finish_filter,
  filter_response,
}

-- What the emulator may pass on of a response, on its own: an IN record of neither its own host nor
-- its own instance, that is a service pointer to a permitted service, or the SRV or TXT record of a
-- permitted or learned instance, or the address of a learned host or of a permitted instance's host.
pub record IsPermitted (env : Env) (now : ℕ) (hosts : List Bytes) (own_host own_instance : Bytes)
    (learned : NameCache) (r : DnsRecord) : Type 0 where
  pub internet : is_in r.class ≡ true
  pub other_host : (own_host ≡ []) ⊎ (r.name ≢ own_host)
  pub other_instance : (own_instance ≡ []) ⊎ ((r.name ≢ own_instance) × (r.target ≢ own_instance))
  pub kind :
      ((r.typ ≡ 12) × (ptr_permitted env r ≡ true))
      ⊎ (((r.typ ≡ 33) ⊎ (r.typ ≡ 16))
          × ((allowed_instance env r.name ≡ true) ⊎ ((has env now r.name learned).0 ≡ true)))
      ⊎ (((r.typ ≡ 1) ⊎ (r.typ ≡ 28))
          × (((has env now r.name learned).0 ≡ true) ⊎ (member hosts r.name ≡ true)))

-- `ks` is what is left of `rs` when exactly the elements with `P` are kept, in their order.
pub data Selects {A : Type 0} (P : A → Type 0) : List A → List A → Type 0 where
  nil : Selects P [] []
  keep : {r : A} {rs ks : List A} → P r → Selects P rs ks → Selects P (r ∷ rs) (r ∷ ks)
  leave : {r : A} {rs ks : List A} → ¬ P r → Selects P rs ks → Selects P (r ∷ rs) ks

abbrev pub sent_bytes : DnsRecord → Bytes
sent_bytes r = rr_bytes r.wire r.typ r.class r.ttl (sent_data r)

abbrev pub all_sent : List DnsRecord → Bytes
all_sent [] = []
all_sent (r ∷ rs) = sent_bytes r ++ all_sent rs

module _ (own_host own_instance : Bytes) (r : DnsRecord) where
  abbrev IsForeign : Type 0
  IsForeign =
      (is_in r.class ≡ true)
      × ((own_host ≡ []) ⊎ (r.name ≢ own_host))
      × ((own_instance ≡ []) ⊎ ((r.name ≢ own_instance) × (r.target ≢ own_instance)))

  is_skipped-IsForeign : is_skipped own_host own_instance r ≡ false → IsForeign
  unfolding is_skipped
  is_skipped-IsForeign h = ground (
    arith,
    equal_iff own_host [],
    equal_iff own_instance [],
    equal_iff r.name own_host,
    equal_iff r.name own_instance,
    equal_iff r.target own_instance,
  )

  IsForeign-is_skipped : IsForeign → is_skipped own_host own_instance r ≡ false
  unfolding is_skipped
  IsForeign-is_skipped h = ground (
    arith,
    equal_iff own_host [],
    equal_iff own_instance [],
    equal_iff r.name own_host,
    equal_iff r.name own_instance,
    equal_iff r.target own_instance,
  )

module _ (env : Env) (now : ℕ) (hosts : List Bytes) (r : DnsRecord) where
  abbrev IsAllowed : NameCache → Type 0
  IsAllowed learned =
      ((r.typ ≡ 12) × (ptr_permitted env r ≡ true))
      ⊎ (((r.typ ≡ 33) ⊎ (r.typ ≡ 16))
          × ((allowed_instance env r.name ≡ true) ⊎ ((has env now r.name learned).0 ≡ true)))
      ⊎ (((r.typ ≡ 1) ⊎ (r.typ ≡ 28))
          × (((has env now r.name learned).0 ≡ true) ⊎ (member hosts r.name ≡ true)))

  allow_record-IsAllowed : (c : NameCache) → (allow_record env now hosts r c).0 ≡ true → IsAllowed c
  unfolding allow_record
  allow_record-IsAllowed c h = ground arith

  IsAllowed-allow_record : (c : NameCache) → IsAllowed c → (allow_record env now hosts r c).0 ≡ true
  unfolding allow_record
  IsAllowed-allow_record c h = ground arith

  allow_record-Agree :
      (learned c : NameCache)
      → (has env now r.name learned).0 ≡ (has env now r.name c).0
      → (allow_record env now hosts r c).0 ≡ (allow_record env now hosts r learned).0
  unfolding allow_record
  allow_record-Agree learned c same = ground arith

  -- The cache is left as it is, or looked up once.
  allow_record-cache :
      (c : NameCache)
      → ((allow_record env now hosts r c).1 ≡ c)
        ⊎ ((allow_record env now hosts r c).1 ≡ (has env now r.name c).1)
  unfolding allow_record
  allow_record-cache c = ground arith

module _ (env : Env) (now : ℕ) (hosts : List Bytes) (own_host own_instance : Bytes)
    (learned : NameCache) where
  forwards-IsPermitted :
      (r : DnsRecord)
      → (forwards env now hosts own_host own_instance r learned).0 ≡ true
      → IsPermitted env now hosts own_host own_instance learned r
  unfolding forwards
  forwards-IsPermitted r h = elim (Bool-cases (is_skipped own_host own_instance r)) [
    | inl skipped ↦ absurd (ground arith)
    | inr foreign ↦
        let (a, b, c) = is_skipped-IsForeign own_host own_instance r foreign in
        record {
          internet = a;
          other_host = b;
          other_instance = c;
          kind = allow_record-IsAllowed env now hosts r learned (rw foreign at h);
        }
  ]

  IsPermitted-forwards :
      (r : DnsRecord)
      → IsPermitted env now hosts own_host own_instance learned r
      → (forwards env now hosts own_host own_instance r learned).0 ≡ true
  unfolding forwards
  IsPermitted-forwards r p =
      rw (IsForeign-is_skipped own_host own_instance r (p.internet, p.other_host, p.other_instance))
        (IsAllowed-allow_record env now hosts r learned p.kind)

  forwards-Agree :
      (r : DnsRecord) (c : NameCache)
      → Agree env now learned c
      → ((forwards env now hosts own_host own_instance r c).0
          ≡ (forwards env now hosts own_host own_instance r learned).0)
        × Agree env now learned (forwards env now hosts own_host own_instance r c).1
  unfolding forwards
  forwards-Agree r c same = elim (Bool-cases (is_skipped own_host own_instance r)) [
    | inl skipped ↦ rw skipped (refl, same)
    | inr foreign ↦ rw foreign (
      allow_record-Agree env now hosts r learned c (same r.name),
      elim (allow_record-cache env now hosts r c) [
        | inl kept ↦ rw kept same
        | inr asked ↦ rw asked (has-Agree env now r.name learned c same)
      ],
    )
  ]

  -- What the loop makes of the records `rs`
  abbrev Sends : List DnsRecord → Bytes → ℕ → Bytes → ℕ → Type 0
  Sends rs p count q n =
      (ks : List DnsRecord) × Selects (IsPermitted env now hosts own_host own_instance learned) rs
        ks
      × All (λ r. length (sent_data r) ≤ 65535) ks
      × (q ≡ p ++ all_sent ks)
      × (n ≡ count + length ks)

  Sends-keep :
      (r : DnsRecord) (rs : List DnsRecord) (p p' : Bytes) (count : ℕ) (q : Bytes) (n : ℕ)
      → IsPermitted env now hosts own_host own_instance learned r
      → append_rr p r.wire r.typ r.class r.ttl (sent_data r) ≡ ok p'
      → Sends rs p' (count + 1) q n
      → Sends (r ∷ rs) p count q n
  Sends-keep r rs p p' count q n allowed written (ks, s, small, e, k) =
      let (fits, grown) = append_rr-ok p r.wire r.typ r.class r.ttl (sent_data r) written in
      (
        r ∷ ks,
        keep allowed s,
        (fits, small),
        e ∙ ap (λ t. t ++ all_sent ks) grown ∙ append_assoc p (sent_bytes r) (all_sent ks),
        omega (arith, k),
      )

  filter_records-Sends :
      (rs : List DnsRecord) (p : Bytes) (count : ℕ) (c : NameCache) {q : Bytes} {n : ℕ}
      {c' : NameCache}
      → Agree env now learned c
      → filter_records env now hosts own_host own_instance rs p count c ≡ ok (q, n, c')
      → Sends rs p count q n
  unfolding filter_records
  filter_records-Sends [] p count c same h =
      ([], nil, tt, ground (arith, append-nil p), ground arith)
  filter_records-Sends (r ∷ rs) p count c {q} {n} same h =
      let (agrees, same') = forwards-Agree r c same in
      elim (Bool-cases (forwards env now hosts own_host own_instance r c).0) [
        | inl sent ↦
            let (p', w, rest) =
              >>=-eq-ok (append_rr p r.wire r.typ r.class r.ttl (sent_data r)) _ (rw sent at h) in
            Sends-keep r rs p p' count q n (forwards-IsPermitted r (sym agrees ∙ sent)) w
              (filter_records-Sends rs p' (count + 1) _ same' rest)
        | inr held ↦
            let (ks, s, small, e, k) = filter_records-Sends rs p count _ same' (rw held at h) in
            (
              ks,
              leave (λ x. false≢true (sym held ∙ agrees ∙ IsPermitted-forwards r x)) s,
              small,
              e,
              k,
            )
      ]

-- The header of a forwarded response: flags 0x8400 and the number of records
abbrev pub response_header : ℕ → Bytes
response_header n = 0 ∷ 0 ∷ 0x84 ∷ 0 ∷ 0 ∷ 0 ∷ n / 256 % 256 ∷ n % 256 ∷ 0 ∷ 0 ∷ 0 ∷ 0 ∷ []

pub finish_filter-some :
    (p : Bytes) (count : ℕ) (c : NameCache) {q : Bytes} {c' : NameCache}
    → finish_filter p count c ≡ ok (some q, c')
    → (q ≡ p) × (0 < count) × (length p ≤ 9000)
unfolding finish_filter
finish_filter-some p count c h = ground arith

response_end :
    (p tail out : Bytes) (count n : ℕ) (d c' : NameCache)
    → p ≡ put_uint16 empty_header 2 0x8400 ++ tail
    → count ≡ 0 + n
    → finish_filter (put_uint16 p 6 (count % 2 ^ 16)) count d ≡ ok (some out, c')
    → (out ≡ response_header (n % 2 ^ 16) ++ tail) × (0 < n) × (length out ≤ 9000)
response_end p tail out count n d c' e k h =
    let (same, pos, short) = finish_filter-some _ count d h in
    let k' : count ≡ n = omega (arith, k) in
    (same ∙ unfold put_uint16 uint16_bytes in rw (e, k'), omega arith, rw same short)

-- Of a response the relay sends exactly the permitted records, each once and in their order, behind
-- a header that counts them, and at most 9000 bytes; `learned` is the cache with what the response
-- itself tells.
pub filter_response-sends :
    (env : Env) (now : ℕ) (rs : List DnsRecord) (own_host own_instance : Bytes) (c c' : NameCache)
    (out : Bytes)
    → filter_response env now rs own_host own_instance c ≡ ok (some out, c')
    → let learned = (response_relevant env now rs c).1 in
      (ks : List DnsRecord) × Selects
        (IsPermitted env now (packet_hosts env rs) own_host own_instance learned)
        rs
        ks
      × All (λ r. length (sent_data r) ≤ 65535) ks
      × (out ≡ response_header (length ks % 2 ^ 16) ++ all_sent ks)
      × (0 < length ks)
      × (length out ≤ 9000)
unfolding filter_response
filter_response-sends env now rs own_host own_instance c c' out h =
    let ((p, count, d), run, end) =
      >>=-eq-ok
        (filter_records env now (packet_hosts env rs) own_host own_instance rs
          (put_uint16 empty_header 2 0x8400) 0 (response_relevant env now rs c).1)
        _ h in
    let (ks, s, small, e, k) =
      filter_records-Sends env now (packet_hosts env rs) own_host own_instance
        (response_relevant env now rs c).1 rs _ 0 _ (λ m. refl) run in
    let (same, pos, short) = response_end p (all_sent ks) out count (length ks) d c' e k end in
    (ks, s, small, same, pos, short)
