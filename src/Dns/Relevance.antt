-- ===== src/Dns/Relevance.antt =====
-- Which names and records concern the MFD: the two service maps, `serviceForName`,
-- `isRelevantHTTPInstance`, `allowedInstance`, `relevantQueryNames` and `responseRelevant`.
use yachtsense_link_emulator.Common.{
  ℕ, ◌%◌, ◌^◌, Bool, true, false, not, ◌&&◌, ◌||◌, List, [], ◌∷◌, ◌++◌, ◌==◌, if◌then◌else◌,
}
use yachtsense_link_emulator.Common.Bytes.{Bytes, codes, equal, has_suffix, contains_text, to_lower}
use yachtsense_link_emulator.Dns.Types.{
  Env, DnsQuestion, DnsRecord, http_service, browse_type, rtsp_service, rym_service, raydb_service,
}
use yachtsense_link_emulator.Dns.Name.{normalize_dns_name}
use yachtsense_link_emulator.Dns.Cache.{NameCache, has, add_ttl}

-- `m[s]` for a `map[string]bool` that holds these keys
unfoldable pub member : List Bytes → Bytes → Bool
member [] s = false
member (k ∷ ks) s = equal k s || member ks s

-- `raymarineServiceTypes`
abbrev pub raymarine_service_types : List Bytes
raymarine_service_types =
    http_service ∷ browse_type ∷ rtsp_service ∷ rym_service ∷ raydb_service ∷ []

-- `mfdServiceTypes`
abbrev pub mfd_service_types : List Bytes
mfd_service_types = rtsp_service ∷ rym_service ∷ raydb_service ∷ []

-- The loop of `serviceForName`: no service type ends in another, so its order does not matter.
unfoldable pub service_suffix : Bytes → List Bytes → Bytes
service_suffix name [] = []
service_suffix name (s ∷ ss) =
    if not (equal s browse_type) && has_suffix name (b'.' ∷ s) then s else service_suffix name ss

-- `serviceForName`
unfoldable pub service_for_name : Env → Bytes → Bytes
unfolding member service_suffix
service_for_name env name =
    let n = normalize_dns_name env name in
    if member raymarine_service_types n then n else service_suffix n raymarine_service_types

-- `isRelevantHTTPInstance`
unfoldable pub is_relevant_http_instance : Env → Bytes → Bool
is_relevant_http_instance env name =
    let n = to_lower env.unicode_lower name in
    contains_text n (codes "yachtsense-main")
    || contains_text n (codes "imx8mmevk")
    || contains_text n (codes "rds webserver")
    || (contains_text n (codes "raymarinerds") && contains_text n (codes "cloudconnector"))

-- `allowedInstance`
unfoldable pub allowed_instance : Env → Bytes → Bool
allowed_instance env name =
    let s = service_for_name env name in
    member mfd_service_types s || (equal s http_service && is_relevant_http_instance env name)

-- `Class & 0x7fff == 1`: class IN, with or without the top bit
abbrev pub is_in : ℕ → Bool
is_in class = class % 2 ^ 15 == 1

-- The condition on a PTR record, which `responseRelevant` and `filterDNS` share
unfoldable pub ptr_permitted : Env → DnsRecord → Bool
ptr_permitted env r =
    member mfd_service_types r.name
    || (equal r.name http_service && is_relevant_http_instance env r.target)
    || (equal r.name browse_type
        && member raymarine_service_types r.target
        && not (equal r.target browse_type))

-- `a || c.has(n)`: the cache is asked only if `a` does not hold.
abbrev pub or_has : Env → ℕ → Bool → Bytes → NameCache → Bool × NameCache
or_has env now true n c = (true, c)
or_has env now false n c = has env now n c

-- `relevantQueryNames`; `seen` is what `out` holds
unfoldable pub relevant_query_names :
    Env → ℕ → List DnsQuestion → List Bytes → NameCache → List Bytes × NameCache
relevant_query_names env now [] out c = (out, c)
relevant_query_names env now (q ∷ qs) out c =
    let n = normalize_dns_name env q.name in
    let (known, c') = or_has env now (member raymarine_service_types n) n c in
    let skipped = relevant_query_names env now qs out c in
    let unknown = relevant_query_names env now qs out c' in
    let taken = relevant_query_names env now qs (out ++ n ∷ []) c' in
    if not (is_in q.class) then skipped else if known && not (member out n) then taken else unknown

-- First loop of `responseRelevant`: learn the instances of permitted services.
unfoldable pub learn_instances : Env → ℕ → List DnsRecord → Bool → NameCache → Bool × NameCache
learn_instances env now [] relevant c = (relevant, c)
learn_instances env now (r ∷ rs) relevant c =
    let hit = is_in r.class && (r.typ == 12 && ptr_permitted env r) in
    learn_instances env now rs (if hit then true else relevant)
      (if hit then add_ttl env now r.target r.ttl c else c)

-- `allowedInstance(r.Name) || c.has(r.Name)`
abbrev pub instance_known : Env → ℕ → DnsRecord → NameCache → Bool × NameCache
instance_known env now r c = or_has env now (allowed_instance env r.name) r.name c

-- One round of the second loop: learn the host of a permitted instance.
unfoldable pub learn_host : Env → ℕ → DnsRecord → Bool × NameCache → Bool × NameCache
learn_host env now r (relevant, c) =
    let (known, c') = instance_known env now r c in
    if not (is_in r.class)
    then (relevant, c)
    else if known
    then (
      true,
      if r.typ == 33 && not (equal r.target []) then add_ttl env now r.target r.ttl c' else c',
    )
    else (relevant, c')

unfoldable pub learn_hosts : Env → ℕ → List DnsRecord → Bool × NameCache → Bool × NameCache
unfolding learn_host
learn_hosts env now [] s = s
learn_hosts env now (r ∷ rs) s = learn_hosts env now rs (learn_host env now r s)

-- `responseRelevant`
unfoldable pub response_relevant : Env → ℕ → List DnsRecord → NameCache → Bool × NameCache
unfolding learn_instances learn_hosts
response_relevant env now rs c = learn_hosts env now rs (learn_instances env now rs false c)
