-- ===== src/Dns/Filter/RoundTrip.antt =====
-- `filterDNS` and then `parseDNSMessage` (dns.go).
use yachtsense_link_emulator.Common.{
  ℕ, ◌+◌, ◌%◌, ◌≤◌, ◌^◌, true, false, List, [], ◌∷◌, ◌++◌, append_assoc, ◌≡◌, ◌⊎◌, inl, inr, refl,
  sym, ap, ◌∙◌, some, ltb, ◌==◌, take-append, length, length-append, length-take_of_le, take, drop,
  All, ok, arith,
}
use yachtsense_link_emulator.Common.Bytes.{Bytes}
use yachtsense_link_emulator.Dns.Types.{Env, DnsRecord, DnsMessage}
use yachtsense_link_emulator.Dns.Name.{decode_name}
use yachtsense_link_emulator.Dns.Name.Labels.{IsWire, wire_labels}
use yachtsense_link_emulator.Dns.Name.RoundTrip.{decode_name-IsWire}
use yachtsense_link_emulator.Dns.Message.Records.{
  rr_bytes, rr_head, rr_head-behind, parse_record-rr_head, drop_next,
}
use yachtsense_link_emulator.Dns.Message.Content.{
  IsBytes, Content, pointer, server, address4, address6, txt, other, IsParsed,
  parse_dns_message-IsParsed,
}
use yachtsense_link_emulator.Dns.Message.Parse.{
  uint16_at, is_txt, Rdata, target_result, parse_rdata, parse_record, parse_entries,
  parse_dns_message,
}
use yachtsense_link_emulator.Dns.Cache.{NameCache}
use yachtsense_link_emulator.Dns.Relevance.{response_relevant}
use yachtsense_link_emulator.Dns.Filter.{packet_hosts, sent_data, filter_response}
use yachtsense_link_emulator.Dns.Filter.Sound.{
  IsPermitted, Selects, nil, keep, leave, sent_bytes, all_sent, response_header,
  filter_response-sends,
}

not_ltb : (a b : ℕ) → b ≤ a → ltb a b ≡ false
not_ltb a b h = ground arith

-- The types that are forwarded
abbrev IsForwarded : ℕ → Type 0
IsForwarded typ = (typ ≡ 12) ⊎ (typ ≡ 33) ⊎ (typ ≡ 16) ⊎ (typ ≡ 1) ⊎ (typ ≡ 28)

==_refl : (n : ℕ) → (n == n) ≡ true
==_refl n = ground arith

IsWire-length : {w : Bytes} → IsWire w → 1 ≤ length w
IsWire-length v = omega (arith, ap length v.spelled, length-append (wire_labels v.labels) (0 ∷ []))

target_at :
    (env : Env) (p : Bytes) (at end port : ℕ) (w rest : Bytes)
    → IsWire w
    → drop at p ≡ w ++ rest
    → end ≡ at + length w
    → (f : Rdata) × (target_result end port (decode_name env p at 0) ≡ ok f)
unfolding target_result
target_at env p at end port w rest v here stop =
    let (name, e) = decode_name-IsWire env p at w rest v here in
    (
      record { target = name; port = port; address = []; target_wire = w },
      rw (e, stop, ==_refl (at + length w)),
    )

module _ (env : Env) (p : Bytes) (typ off : ℕ) where
  parse_pointer :
      (w rest : Bytes)
      → typ ≡ 12
      → IsWire w
      → drop off p ≡ w ++ rest
      → (f : Rdata) × (parse_rdata env p typ off (length w) ≡ ok f)
  unfolding parse_rdata
  parse_pointer w rest t v here = rw t (target_at env p off (off + length w) 0 w rest v here refl)

  parse_server :
      (s w rest : Bytes)
      → typ ≡ 33
      → length s ≡ 6
      → IsWire w
      → drop off p ≡ (s ++ w) ++ rest
      → (f : Rdata) × (parse_rdata env p typ off (length (s ++ w)) ≡ ok f)
  unfolding parse_rdata
  parse_server s w rest t six v here =
      let long : ltb (length (s ++ w)) 7 ≡ false =
        not_ltb (length (s ++ w)) 7 (omega (arith, six, length-append s w, IsWire-length v)) in
      let behind : drop (off + 6) p ≡ w ++ rest =
        ap (λ (k : ℕ). drop (off + k) p) (sym six)
        ∙ drop_next p s (w ++ rest) off (here ∙ append_assoc s w rest) in
      rw (t, long)
        (target_at env p (off + 6) (off + length (s ++ w)) (uint16_at p (off + 4)) w rest v behind
          (omega (arith, six, length-append s w)))

  parse_plain :
      (d rest : Bytes)
      → ((typ ≡ 1) × (length d ≡ 4))
        ⊎ ((typ ≡ 28) × (length d ≡ 16))
        ⊎ ((typ ≡ 16) × (is_txt 0 d ≡ true))
      → drop off p ≡ d ++ rest
      → (f : Rdata) × (parse_rdata env p typ off (length d) ≡ ok f)
  unfolding parse_rdata
  parse_plain d rest (inl (t, n)) here = rw (t, n) (_, refl)
  parse_plain d rest (inr (inl (t, n))) here = rw (t, n) (_, refl)
  parse_plain d rest (inr (inr (t, x))) here = rw (t, here, take-append d rest, x) (_, refl)

-- The data that is sent is read without an error, wherever it stands.
parse_rdata-sent_data :
    (env : Env) (p : Bytes) (off : ℕ) (r : DnsRecord) (rest : Bytes)
    → IsForwarded r.typ
    → Content r.typ r.rdata r.target_wire
    → drop off p ≡ sent_data r ++ rest
    → (f : Rdata) × (parse_rdata env p r.typ off (length (sent_data r)) ≡ ok f)
parse_rdata-sent_data env p off r rest sort (pointer t w) here =
    let s : sent_data r ≡ r.target_wire = unfold sent_data in ground arith in
    rw s (parse_pointer env p r.typ off r.target_wire rest t w (rw s at here))
parse_rdata-sent_data env p off r rest sort (server t w n) here =
    let s : sent_data r ≡ take 6 r.rdata ++ r.target_wire = unfold sent_data in ground arith in
    rw s (
      parse_server env p r.typ off (take 6 r.rdata) r.target_wire rest t
        (length-take_of_le 6 r.rdata n) w (rw s at here))
parse_rdata-sent_data env p off r rest sort (address4 t n) here =
    let s : sent_data r ≡ r.rdata = unfold sent_data in ground arith in
    rw s (parse_plain env p r.typ off r.rdata rest (inl (t, n)) (rw s at here))
parse_rdata-sent_data env p off r rest sort (address6 t n) here =
    let s : sent_data r ≡ r.rdata = unfold sent_data in ground arith in
    rw s (parse_plain env p r.typ off r.rdata rest (inr (inl (t, n))) (rw s at here))
parse_rdata-sent_data env p off r rest sort (txt t x) here =
    let s : sent_data r ≡ r.rdata = unfold sent_data in ground arith in
    rw s (parse_plain env p r.typ off r.rdata rest (inr (inr (t, x))) (rw s at here))
parse_rdata-sent_data env p off r rest sort (other a b c d e) here = absurd (ground arith)

-- `m` carries what is sent of `k`.
pub record Carries (k m : DnsRecord) : Type 0 where
  pub wire_is : m.wire ≡ k.wire
  pub typ_is : m.typ ≡ k.typ
  pub class_is : m.class ≡ k.class
  pub ttl_is : m.ttl ≡ k.ttl
  pub rdata_is : m.rdata ≡ sent_data k

abbrev pub CarriesAll : List DnsRecord → List DnsRecord → Type 0
CarriesAll [] [] = Unit
CarriesAll (k ∷ ks) (m ∷ ms) = Carries k m × CarriesAll ks ms
CarriesAll _ _ = ⊥

abbrev IsReady : DnsRecord → Type 0
IsReady k = IsParsed k × IsForwarded k.typ × (length (sent_data k) ≤ 65535)

rr_bytes-rr_head :
    (wire : Bytes) (typ class ttl : ℕ) (d rest : Bytes)
    → length d ≤ 65535
    → rr_bytes wire typ class ttl d ++ rest ≡ rr_head wire typ class ttl (length d) (d ++ rest)
rr_bytes-rr_head wire typ class ttl d rest small =
    let same : length d % 2 ^ 16 ≡ length d = omega arith in rw same (simp append_assoc)

parse_record-sent_bytes :
    (env : Env) (p : Bytes) (off : ℕ) (k : DnsRecord) (rest : Bytes)
    → IsReady k
    → drop off p ≡ sent_bytes k ++ rest
    → (m : DnsRecord) × (next : ℕ) × (parse_record env p off ≡ ok (m, next))
      × Carries k m
      × (drop next p ≡ rest)
parse_record-sent_bytes env p off k rest (v, sort, small) here =
    let d = sent_data k in
    let headed = here ∙ rr_bytes-rr_head k.wire k.typ k.class k.ttl d rest small in
    let at : drop (off + length k.wire + 10) p ≡ d ++ rest =
      rr_head-behind p off k.wire k.typ k.class k.ttl (length d) (d ++ rest) headed in
    let (f, parsed) =
      parse_rdata-sent_data env p (off + length k.wire + 10) k rest sort v.content at in
    let (name, read, after) =
      parse_record-rr_head env p off k.wire k.typ k.class k.ttl d rest f v.wire v.typ_small
        v.class_small v.ttl_small (omega arith) headed parsed in
    (
      _,
      _,
      read,
      record { wire_is = refl; typ_is = refl; class_is = refl; ttl_is = refl; rdata_is = refl },
      after,
    )

-- The loop over the records reads back all that was sent.
parse_entries-all_sent :
    (env : Env) (p : Bytes) (ks : List DnsRecord) (off : ℕ)
    → All IsReady ks
    → drop off p ≡ all_sent ks
    → (ms : List DnsRecord) × (end : ℕ) × (parse_entries (parse_record env p) (length ks) off
        ≡ ok (ms, end))
      × CarriesAll ks ms
unfolding parse_entries
parse_entries-all_sent env p [] off ready here = ([], off, refl, tt)
parse_entries-all_sent env p (k ∷ ks) off ready here =
    let (m, next, read, carried, behind) =
      parse_record-sent_bytes env p off k (all_sent ks) ready.0 here in
    let (ms, end, more, all) = parse_entries-all_sent env p ks next ready.1 behind in
    (m ∷ ms, end, rw (read, more), (carried, all))

-- A message of records alone, behind the header of a forwarded response
parse_dns_message-all_sent :
    (env : Env) (ks : List DnsRecord)
    → All IsReady ks
    → length ks ≤ 1024
    → (m : DnsMessage) × (parse_dns_message env
          (response_header (length ks % 2 ^ 16) ++ all_sent ks)
        ≡ ok m)
      × (m.response ≡ true)
      × (m.questions ≡ [])
      × CarriesAll ks m.records
unfolding parse_dns_message uint16_at parse_entries
parse_dns_message-all_sent env ks ready few =
    let p = response_header (length ks % 2 ^ 16) ++ all_sent ks in
    let (ms, end, read, all) = parse_entries-all_sent env p ks 12 ready refl in
    let n : uint16_at p 6 + uint16_at p 8 + uint16_at p 10 ≡ length ks = omega arith in
    let long : ltb (length p) 12 ≡ false = not_ltb (length p) 12 (omega arith) in
    let few' : ltb 1024 (0 + length ks) ≡ false = not_ltb 1024 (0 + length ks) (omega arith) in
    (
      record { id = 0; flags = 0x8400; response = true; questions = []; records = ms },
      rw (long, n, few', read),
      refl,
      refl,
      all,
    )

module _ (P : DnsRecord → Type 0) where
  Selects-length : {rs ks : List DnsRecord} → Selects P rs ks → length ks ≤ length rs
  Selects-length nil = omega arith
  Selects-length (keep h s) = omega (arith, Selects-length s)
  Selects-length (leave h s) = omega (arith, Selects-length s)

  Selects-All :
      {rs ks : List DnsRecord} (Q : DnsRecord → Type 0)
      → Selects P rs ks
      → All Q rs
      → All (λ r. P r × Q r) ks
  Selects-All Q nil all = tt
  Selects-All Q (keep h s) all = ((h, all.0), Selects-All Q s all.1)
  Selects-All Q (leave h s) all = Selects-All Q s all.1

kind_type :
    {t : ℕ} {A B C : Type 0}
    → ((t ≡ 12) × A) ⊎ (((t ≡ 33) ⊎ (t ≡ 16)) × B) ⊎ (((t ≡ 1) ⊎ (t ≡ 28)) × C)
    → IsForwarded t
kind_type (inl (t, _)) = inl t
kind_type (inr (inl (inl t, _))) = inr (inl t)
kind_type (inr (inl (inr t, _))) = inr (inr (inl t))
kind_type (inr (inr (inl t, _))) = inr (inr (inr (inl t)))
kind_type (inr (inr (inr t, _))) = inr (inr (inr (inr t)))

IsPermitted-IsForwarded :
    {env : Env} {now : ℕ} {hosts : List Bytes} {own_host own_instance : Bytes} {learned : NameCache}
    {r : DnsRecord}
    → IsPermitted env now hosts own_host own_instance learned r
    → IsForwarded r.typ
IsPermitted-IsForwarded p = kind_type p.kind

make-IsReady :
    (P : DnsRecord → Type 0)
    → ((r : DnsRecord) → P r → IsForwarded r.typ)
    → (ks : List DnsRecord) → All (λ r. P r × IsParsed r) ks
    → All (λ r. length (sent_data r) ≤ 65535) ks
    → All IsReady ks
make-IsReady P sort [] all small = tt
make-IsReady P sort (k ∷ ks) all small =
    ((all.0.1, sort k all.0.0, small.0), make-IsReady P sort ks all.1 small.1)

-- What the relay makes of a response, a packet of bytes that `parseDNSMessage` accepts, is again a
-- message that `parseDNSMessage` accepts: a response without questions, with a record for each
-- permitted record of the original, in order, of the same type, class, lifetime and wire name.
pub parse-filter_response :
    (env : Env) (now : ℕ) (packet out : Bytes) (m : DnsMessage) (own_host own_instance : Bytes)
    (c c' : NameCache)
    → IsBytes packet
    → parse_dns_message env packet ≡ ok m
    → filter_response env now m.records own_host own_instance c ≡ ok (some out, c')
    → let learned = (response_relevant env now m.records c).1 in
      (ks : List DnsRecord) × (sent : DnsMessage) × Selects
        (IsPermitted env now (packet_hosts env m.records) own_host own_instance learned)
        m.records
        ks
      × (parse_dns_message env out ≡ ok sent)
      × (sent.response ≡ true)
      × (sent.questions ≡ [])
      × CarriesAll ks sent.records
parse-filter_response env now packet out m own_host own_instance c c' bytes parsed filtered =
    let (checked, few) = parse_dns_message-IsParsed env packet m bytes parsed in
    let (ks, s, small, same, _, _) =
      filter_response-sends env now m.records own_host own_instance c c' out filtered in
    let ready =
      make-IsReady _ (λ r x. IsPermitted-IsForwarded x) ks (Selects-All _ IsParsed s checked)
        small in
    let (sent, read, response, questions, all) =
      parse_dns_message-all_sent env ks ready (omega (arith, Selects-length _ s)) in
    (ks, sent, s, rw same read, response, questions, all)
