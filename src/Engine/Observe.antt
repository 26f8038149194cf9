-- ===== src/Engine/Observe.antt =====
-- `observe`: the services and hosts that the engine learns, and the MFD that it reports. One reading
-- of the clock serves a whole message.
pub mod Bounds
use yachtsense_link_emulator.Common.{
  ℕ, zero, suc, ◌+◌, ◌*◌, ◌%◌, ◌^◌, Bool, true, false, not, ◌&&◌, ◌||◌, List, [], ◌∷◌, ◌++◌, Option,
  none, some, ltb, ◌==◌, if◌then◌else◌, length, take, ◌-◌,
}
use yachtsense_link_emulator.Common.Bytes.{Bytes, codes, equal, has_suffix}
use yachtsense_link_emulator.Dns.Types.{Env, DnsRecord}
use yachtsense_link_emulator.Dns.Cache.{NameCache, has, second, clamp_ttl}
use yachtsense_link_emulator.Dns.Relevance.{member, mfd_service_types, service_for_name}

-- A map with texts as keys, each key once
abbrev pub Table : Type 0 → Type 0
Table A = List (Bytes × A)

unfoldable pub lookup : {A : Type 0} → Bytes → Table A → Option A
unfolding equal
lookup n [] = none
lookup n ((k, a) ∷ t) = if equal k n then some a else lookup n t

unfoldable pub remove : {A : Type 0} → Bytes → Table A → Table A
unfolding equal
remove n [] = []
remove n ((k, a) ∷ t) = if equal k n then remove n t else (k, a) ∷ remove n t

unfoldable pub store : {A : Type 0} → Bytes → A → Table A → Table A
store n a t = (n, a) ∷ remove n t

unfoldable pub remove_at : {A : Type 0} → ℕ → Table A → Table A
remove_at i [] = []
remove_at zero (e ∷ t) = t
remove_at (suc i) (e ∷ t) = e ∷ remove_at i t

-- The loop that deletes keys until `limit` are left, at most `fuel` of them
unfoldable pub shrink : {A : Type 0} → Env → ℕ → ℕ → Table A → Table A
unfolding remove_at
shrink env limit zero t = t
shrink env limit (suc fuel) t =
    let rest = shrink env limit fuel (remove_at (env.first_key (length t) % length t) t) in
    if ltb limit (length t) then rest else t

-- `observation`; its field `IP` is never set.
pub record Observation : Type 0 where
  pub service : Bytes
  pub instance_name : Bytes
  pub host : Bytes
  pub port : ℕ
  pub seen : ℕ
  pub expires : ℕ

pub record HostAddress : Type 0 where
  pub ip : Bytes
  pub host_expires : ℕ

-- `Seen`
pub record Seen : Type 0 where
  pub seen_name : Bytes
  pub seen_ip : Bytes
  pub seen_interface : Bytes
  pub seen_service : Bytes
  pub seen_port : ℕ
  pub last_seen : ℕ
  pub seen_expires : ℕ

-- The part of the engine's state that `observe` changes; `axiom_seen` is the field `Axiom` of the
-- shared state, and `touched` holds the keys of the message.
pub record EngineState : Type 0 where
  pub obs : Table Observation
  pub hosts : Table HostAddress
  pub names : NameCache
  pub axiom_seen : Seen
  pub touched : List Bytes

-- `ttlTime`
unfoldable pub ttl_time : ℕ → ℕ
ttl_time ttl = clamp_ttl ttl * second

-- The instance of the MFD that is reported
abbrev full_name : Seen → Bytes
full_name s = s.seen_name ++ b'.' ∷ s.seen_service

-- The loop for goodbyes of the reported MFD
unfoldable pub say_goodbye : ℕ → List DnsRecord → Seen → Seen
unfolding equal
say_goodbye now [] s = s
say_goodbye now (r ∷ rs) s =
    let gone =
      r.ttl == 0
      && (equal r.target (full_name s)
          || (equal r.name (full_name s) || equal r.address s.seen_ip)) in
    say_goodbye now rs (if gone then record s { seen_expires = now } else s)

unfoldable pub live_obs : ℕ → Table Observation → Table Observation
live_obs now [] = []
live_obs now ((k, o) ∷ t) = if ltb o.expires now then live_obs now t else (k, o) ∷ live_obs now t

unfoldable pub live_hosts : ℕ → Table HostAddress → Table HostAddress
live_hosts now [] = []
live_hosts now ((k, o) ∷ t) =
    if ltb o.host_expires now then live_hosts now t else (k, o) ∷ live_hosts now t

abbrev known_or_new : Bytes → Bytes → Option Observation → Observation
known_or_new service name (some o) = o
known_or_new service name none = record {
  service = service;
  instance_name = name;
  host = [];
  port = 0;
  seen = 0;
  expires = 0;
}

-- One record that shows an instance of a service of the MFD: a pointer, or a service record with
-- its host and port
unfoldable pub learn_service :
    ℕ → Bytes → Bytes → Option (Bytes × ℕ) → ℕ → EngineState → EngineState
unfolding lookup remove store
learn_service now service name host_port ttl s =
    let o = known_or_new service name (lookup name s.obs) in
    let seen : Observation = record o { seen = now; expires = now + ttl_time ttl } in
    let complete : Observation = elim host_port [
      | none ↦ seen
      | some (host, port) ↦ record seen { host = host; port = port }
    ] in
    if ttl == 0
    then record s { obs = remove name s.obs }
    else record s { obs = store name complete s.obs; touched = name ∷ s.touched }

-- One round of the first loop over the records. A record has one type, so that the second test
-- applies where the first does not.
unfoldable pub observe_service : Env → ℕ → DnsRecord → EngineState → EngineState
unfolding learn_service member
observe_service env now r s =
    if not (r.class % 2 ^ 15 == 1)
    then s
    else if r.typ == 12 && member mfd_service_types r.name
    then learn_service now r.name r.target none r.ttl s
    else if r.typ == 33 && member mfd_service_types (service_for_name env r.name)
    then learn_service now (service_for_name env r.name) r.name (some (r.target, r.port)) r.ttl s
    else s

unfoldable pub observe_services : Env → ℕ → List DnsRecord → EngineState → EngineState
unfolding observe_service
observe_services env now [] s = s
observe_services env now (r ∷ rs) s = observe_services env now rs (observe_service env now r s)

-- The keys of the services on a host
unfoldable pub on_host : Bytes → Table Observation → List Bytes
unfolding equal
on_host host [] = []
on_host host ((k, o) ∷ t) = if equal o.host host then k ∷ on_host host t else on_host host t

-- One round of the second loop over the records: the address of a host whose name is known
unfoldable pub observe_host : Env → ℕ → DnsRecord → EngineState → EngineState
unfolding has remove store on_host
observe_host env now r s =
    let (known, names) = has env now r.name s.names in
    if not (r.typ == 1) || length r.address == 0
    then s
    else if not known
    then record s { names = names }
    else if r.ttl == 0
    then record s { names = names; hosts = remove r.name s.hosts }
    else record s {
      names = names;
      hosts = store r.name (record { ip = r.address; host_expires = now + ttl_time r.ttl }) s.hosts;
      touched = on_host r.name s.obs ++ s.touched;
    }

unfoldable pub observe_hosts : Env → ℕ → List DnsRecord → EngineState → EngineState
unfolding observe_host
observe_hosts env now [] s = s
observe_hosts env now (r ∷ rs) s = observe_hosts env now rs (observe_host env now r s)

-- `strings.TrimSuffix`
unfoldable pub trim_suffix : Bytes → Bytes → Bytes
unfolding has_suffix
trim_suffix s t = if has_suffix s t then take (length s - length t) s else s

-- The MFD that a touched instance shows
unfoldable pub show_axiom : Bytes → ℕ → Option Observation → Table HostAddress → Seen → Seen
unfolding lookup trim_suffix
show_axiom interface now none hosts s = s
show_axiom interface now (some o) hosts s = elim (lookup o.host hosts) [
  | none ↦ s
  | some h ↦ if ltb h.host_expires now then s else record {
    seen_name = trim_suffix o.instance_name (b'.' ∷ o.service);
    seen_ip = h.ip;
    seen_interface = interface;
    seen_service = o.service;
    seen_port = o.port;
    last_seen = now;
    seen_expires = if ltb h.host_expires o.expires then h.host_expires else o.expires;
  }
]

-- The last loop, over the touched keys in the order that the map gives
unfoldable pub show_touched : Bytes → ℕ → List Bytes → EngineState → Seen → Seen
unfolding show_axiom
show_touched interface now [] s seen = seen
show_touched interface now (k ∷ ks) s seen =
    show_touched interface now ks s (show_axiom interface now (lookup k s.obs) s.hosts seen)

unfoldable pub bounded : Env → EngineState → EngineState
unfolding shrink
bounded env s = record s {
  obs = shrink env 256 (length s.obs) s.obs;
  hosts = shrink env 512 (length s.hosts) s.hosts;
}

unfoldable pub forget : ℕ → List DnsRecord → EngineState → EngineState
unfolding say_goodbye live_obs live_hosts
forget now rs s = record s {
  axiom_seen = say_goodbye now rs s.axiom_seen;
  obs = live_obs now s.obs;
  hosts = live_hosts now s.hosts;
  touched = [];
}

-- `observe`; `order` is the order in which the map of the touched keys gives them.
unfoldable pub observe :
    Env → (List Bytes → List Bytes) → Bytes → ℕ → List DnsRecord → EngineState → EngineState
unfolding observe_services observe_hosts show_touched
observe env order interface now rs s =
    let learned =
      bounded env (observe_hosts env now rs (observe_services env now rs (forget now rs s))) in
    record learned {
      axiom_seen = show_touched interface now (order learned.touched) learned learned.axiom_seen;
    }
