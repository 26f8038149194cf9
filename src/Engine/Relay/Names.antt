-- ===== src/Engine/Relay/Names.antt =====
-- The size of the cache of learned names through the steps of the relay (dns.go, daemon.go).
use yachtsense_link_emulator.Common.{
  ℕ, zero, suc, ◌+◌, ◌≤◌, Bool, true, false, not, ◌&&◌, List, [], ◌∷◌, Option, none, some, ◌==◌,
  if◌then◌else◌, length, ok, ◌≡◌, refl, arith, Bool-cases, inl, inr, >>=-eq-ok, Result-cases, ◌∙◌,
  ◌%◌, ◌^◌,
}
use yachtsense_link_emulator.Common.Bytes.{Bytes}
use yachtsense_link_emulator.Dns.Types.{Env, DnsRecord, DnsQuestion, DnsMessage}
use yachtsense_link_emulator.Dns.Name.{normalize_dns_name}
use yachtsense_link_emulator.Dns.Message.Build.{empty_header, append_rr, put_uint16}
use yachtsense_link_emulator.Dns.Cache.{NameCache, has, has_entry, add_ttl}
use yachtsense_link_emulator.Dns.Cache.Laws.{length-delete-le, length-add_ttl-le}
use yachtsense_link_emulator.Dns.Relevance.{
  or_has, instance_known, learn_instances, learn_host, learn_hosts, response_relevant, is_in,
  ptr_permitted, allowed_instance, member, mfd_service_types, service_for_name,
  raymarine_service_types,
}
use yachtsense_link_emulator.Dns.Filter.{
  allow_record, forwards, filter_records, filter_questions, filter_response, filter_query,
  filter_dns, finish_filter, packet_hosts, sent_data,
}
use yachtsense_link_emulator.Engine.Observe.{
  EngineState, observe_service, observe_services, observe_host, observe_hosts, observe, forget,
  bounded, learn_service,
}
use yachtsense_link_emulator.Engine.Relay.{names_after, names_after_records, filtered}

abbrev pub Small : NameCache → Type 0
Small c = length c ≤ 1024

has-Small :
    (env : Env) (now : ℕ) (name : Bytes) (c : NameCache) → Small c → Small (has env now name c).1
unfolding has has_entry
has-Small env now name c h = ground (arith, length-delete-le (normalize_dns_name env name) c)

or_has-Small :
    (env : Env) (now : ℕ) (b : Bool) (name : Bytes) (c : NameCache)
    → Small c
    → Small (or_has env now b name c).1
or_has-Small env now true name c h = h
or_has-Small env now false name c h = has-Small env now name c h

if-Small : (b : Bool) (x y : NameCache) → Small x → Small y → Small (if b then x else y)
if-Small true x y h k = h
if-Small false x y h k = k

learn_instances-Small :
    (env : Env) (now : ℕ) (rs : List DnsRecord) (b : Bool) (c : NameCache)
    → Small c
    → Small (learn_instances env now rs b c).1
unfolding learn_instances
learn_instances-Small env now [] b c h = h
learn_instances-Small env now (r ∷ rs) b c h =
    let hit = is_in r.class && (r.typ == 12 && ptr_permitted env r) in
    learn_instances-Small env now rs (if hit then true else b)
      (if hit then add_ttl env now r.target r.ttl c else c)
      (if-Small hit (add_ttl env now r.target r.ttl c) c
        (length-add_ttl-le env now r.target r.ttl c h) h)

learn_host-Small :
    (env : Env) (now : ℕ) (r : DnsRecord) (b : Bool) (c : NameCache)
    → Small c
    → Small (learn_host env now r (b, c)).1
unfolding learn_host
learn_host-Small env now r b c h =
    let c' = (instance_known env now r c).1 in
    let h' = or_has-Small env now (allowed_instance env r.name) r.name c h in
    ground (arith, length-add_ttl-le env now r.target r.ttl c' h')

learn_hosts-Small :
    (env : Env) (now : ℕ) (rs : List DnsRecord) (b : Bool) (c : NameCache)
    → Small c
    → Small (learn_hosts env now rs (b, c)).1
unfolding learn_hosts
learn_hosts-Small env now [] b c h = h
learn_hosts-Small env now (r ∷ rs) b c h =
    learn_hosts-Small env now rs (learn_host env now r (b, c)).0 (learn_host env now r (b, c)).1
      (learn_host-Small env now r b c h)

pub response_relevant-Small :
    (env : Env) (now : ℕ) (rs : List DnsRecord) (c : NameCache)
    → Small c
    → Small (response_relevant env now rs c).1
unfolding response_relevant
response_relevant-Small env now rs c h =
    learn_hosts-Small env now rs (learn_instances env now rs false c).0
      (learn_instances env now rs false c).1 (learn_instances-Small env now rs false c h)

forwards-Small :
    (env : Env) (now : ℕ) (hosts : List Bytes) (a b : Bytes) (r : DnsRecord) (c : NameCache)
    → Small c
    → Small (forwards env now hosts a b r c).1
unfolding forwards allow_record
forwards-Small env now hosts a b r c h =
    let known = has-Small env now r.name c h in
    let other = or_has-Small env now (allowed_instance env r.name) r.name c h in ground arith

names_after_records-Small :
    (env : Env) (now : ℕ) (hosts : List Bytes) (a b : Bytes) (rs : List DnsRecord) (c : NameCache)
    → Small c
    → Small (names_after_records env now hosts a b rs c)
unfolding names_after_records
names_after_records-Small env now hosts a b [] c h = h
names_after_records-Small env now hosts a b (r ∷ rs) c h =
    names_after_records-Small env now hosts a b rs (forwards env now hosts a b r c).1
      (forwards-Small env now hosts a b r c h)

filter_records-Small :
    (env : Env) (now : ℕ) (hosts : List Bytes) (a b : Bytes) (rs : List DnsRecord) (p : Bytes)
    (n : ℕ) (c : NameCache) {q : Bytes} {m : ℕ} {d : NameCache}
    → Small c
    → filter_records env now hosts a b rs p n c ≡ ok (q, m, d)
    → Small d
unfolding filter_records
filter_records-Small env now hosts a b [] p n c h e = ground (arith, h, e)
filter_records-Small env now hosts a b (r ∷ rs) p n c h e =
    let d = (forwards env now hosts a b r c).1 in
    let h' = forwards-Small env now hosts a b r c h in
    elim (Bool-cases (forwards env now hosts a b r c).0) [
      | inr dropped ↦ filter_records-Small env now hosts a b rs p n d h' (rw dropped at e)
      | inl kept ↦
          let (q, _, e') =
            >>=-eq-ok (append_rr p r.wire r.typ r.class r.ttl (sent_data r)) _ (rw kept at e) in
          filter_records-Small env now hosts a b rs q (n + 1) d h' e'
    ]

filter_questions-Small :
    (env : Env) (now : ℕ) (qs : List DnsQuestion) (p : Bytes) (n : ℕ) (c : NameCache)
    → Small c
    → Small (filter_questions env now qs p n c).2
unfolding filter_questions
filter_questions-Small env now [] p n c h = h
filter_questions-Small env now (q ∷ qs) p n c h = elim (Bool-cases (is_in q.class)) [
  | inr foreign ↦ rw foreign (filter_questions-Small env now qs p n c h)
  | inl internet ↦
      let known = or_has env now (member raymarine_service_types q.name) q.name c in
      let h' = or_has-Small env now (member raymarine_service_types q.name) q.name c h in
      elim (Bool-cases known.0) [
        | inl taken ↦ rw (internet, taken) (filter_questions-Small env now qs _ (n + 1) known.1 h')
        | inr unknown ↦ rw (internet, unknown) (filter_questions-Small env now qs p n known.1 h')
      ]
]

finish_filter-Small :
    (p : Bytes) (n : ℕ) (c : NameCache) {o : Option Bytes} {d : NameCache}
    → Small c
    → finish_filter p n c ≡ ok (o, d)
    → Small d
unfolding finish_filter
finish_filter-Small p n c h e = ground arith

filter_response-Small :
    (env : Env) (now : ℕ) (rs : List DnsRecord) (a b : Bytes) (c : NameCache) {o : Option Bytes}
    {d : NameCache}
    → Small c
    → filter_response env now rs a b c ≡ ok (o, d)
    → Small d
unfolding filter_response
filter_response-Small env now rs a b c h e =
    let start = response_relevant-Small env now rs c h in
    let ((p, n, d), run, end) =
      >>=-eq-ok
        (filter_records env now (packet_hosts env rs) a b rs (put_uint16 empty_header 2 0x8400) 0
          (response_relevant env now rs c).1)
        _ e in
    finish_filter-Small (put_uint16 p 6 (n % 2 ^ 16)) n d
      (filter_records-Small env now (packet_hosts env rs) a b rs (put_uint16 empty_header 2 0x8400)
        0 (response_relevant env now rs c).1 start run)
      end

filter_query-Small :
    (env : Env) (now : ℕ) (qs : List DnsQuestion) (c : NameCache) {o : Option Bytes} {d : NameCache}
    → Small c
    → filter_query env now qs c ≡ ok (o, d)
    → Small d
unfolding filter_query
filter_query-Small env now qs c h e =
    let (p, n, d) = filter_questions env now qs empty_header 0 c in
    finish_filter-Small (put_uint16 p 4 (n % 2 ^ 16)) n d
      (filter_questions-Small env now qs empty_header 0 c h) e

names_after-Small :
    (env : Env) (now : ℕ) (m : DnsMessage) (a b : Bytes) (c : NameCache)
    → Small c
    → Small (names_after env now m a b c)
unfolding names_after
names_after-Small env now m a b c h = elim (Bool-cases m.response) [
  | inl response ↦ rw response (
      names_after_records-Small env now (packet_hosts env m.records) a b m.records
        (response_relevant env now m.records c).1 (response_relevant-Small env now m.records c h))
  | inr query ↦ rw query (filter_questions-Small env now m.questions empty_header 0 c h)
]

filter_dns-Small :
    (env : Env) (now : ℕ) (m : DnsMessage) (a b : Bytes) (c : NameCache) {o : Option Bytes}
    {d : NameCache}
    → Small c
    → filter_dns env now m a b c ≡ ok (o, d)
    → Small d
unfolding filter_dns
filter_dns-Small env now m a b c h e = elim (Bool-cases m.response) [
  | inl response ↦ filter_response-Small env now m.records a b c h (rw response at e)
  | inr query ↦ filter_query-Small env now m.questions c h (rw query at e)
]

-- Whether the filter gives an error or not, the cache stays small.
pub filtered-Small :
    (env : Env) (now : ℕ) (m : DnsMessage) (a b : Bytes) (c : NameCache)
    → Small c
    → Small (filtered (filter_dns env now m a b c) (names_after env now m a b c)).1
filtered-Small env now m a b c h = elim (Result-cases (filter_dns env now m a b c)) [
  | inr (e, bad) ↦ rw bad (names_after-Small env now m a b c h)
  | inl ((o, d), good) ↦ rw good (filter_dns-Small env now m a b c h good)
]

observe_host-Small :
    (env : Env) (now : ℕ) (r : DnsRecord) (s : EngineState)
    → Small s.names
    → Small (observe_host env now r s).names
unfolding observe_host
observe_host-Small env now r s h = let known = has-Small env now r.name s.names h in ground arith

learn_service-names :
    (now : ℕ) (service name : Bytes) (o : Option (Bytes × ℕ)) (ttl : ℕ) (s : EngineState)
    → (learn_service now service name o ttl s).names ≡ s.names
unfolding learn_service
learn_service-names now service name o zero s = refl
learn_service-names now service name o (suc ttl) s = ground arith

if-names :
    (b : Bool) (x y z : EngineState)
    → x.names ≡ z.names
    → y.names ≡ z.names
    → (if b then x else y).names ≡ z.names
if-names true x y z h k = h
if-names false x y z h k = k

observe_service-names :
    (env : Env) (now : ℕ) (r : DnsRecord) (s : EngineState)
    → (observe_service env now r s).names ≡ s.names
unfolding observe_service
observe_service-names env now r s = if-names (not (r.class % 2 ^ 15 == 1)) s _ s refl (
    if-names (r.typ == 12 && member mfd_service_types r.name) _ _ s
      (learn_service-names now r.name r.target none r.ttl s)
      (if-names (r.typ == 33 && member mfd_service_types (service_for_name env r.name)) _ s s
        (learn_service-names now (service_for_name env r.name) r.name (some (r.target, r.port))
          r.ttl s)
        refl))

observe_services-names :
    (env : Env) (now : ℕ) (rs : List DnsRecord) (s : EngineState)
    → (observe_services env now rs s).names ≡ s.names
unfolding observe_services
observe_services-names env now [] s = refl
observe_services-names env now (r ∷ rs) s =
    observe_services-names env now rs (observe_service env now r s)
    ∙ observe_service-names env now r s

observe_hosts-Small :
    (env : Env) (now : ℕ) (rs : List DnsRecord) (s : EngineState)
    → Small s.names
    → Small (observe_hosts env now rs s).names
unfolding observe_hosts
observe_hosts-Small env now [] s h = h
observe_hosts-Small env now (r ∷ rs) s h =
    observe_hosts-Small env now rs (observe_host env now r s) (observe_host-Small env now r s h)

pub observe-Small :
    (env : Env) (order : List Bytes → List Bytes) (interface : Bytes) (now : ℕ)
    (rs : List DnsRecord) (s : EngineState)
    → Small s.names
    → Small (observe env order interface now rs s).names
unfolding observe bounded forget
observe-Small env order interface now rs s h =
    observe_hosts-Small env now rs (observe_services env now rs (forget now rs s))
      (rw (observe_services-names env now rs (forget now rs s)) h)
