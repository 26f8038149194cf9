-- ===== src/Engine/Build/Made.antt =====
-- The turns of the loop of `buildEngine` (daemon.go).
use yachtsense_link_emulator.Common.{
  All-map, Bool, true, false, ◌||◌, List, [], ◌∷◌, Option, none, some, if◌then◌else◌, Result, ok,
  err, All, ◌≡◌, ◌≢◌, refl, sym, ap, ◌∙◌, ◌⊎◌, inl, inr, arith,
}
use yachtsense_link_emulator.Common.Bytes.{Bytes, equal, equal_iff}
use yachtsense_link_emulator.Dns.Types.{Env, DnsResult}
use yachtsense_link_emulator.Dns.Message.Build.{Configuration, build_announcement}
use yachtsense_link_emulator.Config.Text.{Ipv4}
use yachtsense_link_emulator.Config.Interfaces.{dotted, has_text}
use yachtsense_link_emulator.Engine.Build.{
  NetInterface, Net, BuildError, open_endpoint, publishes_on, announced, bytes_of, make_endpoint,
  endpoint_with, Endpoints, add_endpoint, add_opened, make_endpoints,
}
use yachtsense_link_emulator.Engine.Loop.{Endpoint}

-- An endpoint of the engine: its interface and address were found, its packets to itself are
-- recognised, and where it publishes, it has the announcement and the goodbye of this interface.
pub record IsEndpoint (env : Env) (net : Net) (c : Configuration) (ips : List Bytes) (ep : Endpoint)
    : Type 0 where
  pub interface : NetInterface
  pub ip : Ipv4
  pub opened : open_endpoint net c ep.name ≡ ok (ip, interface)
  pub own : has_text ips (dotted ip) ≡ true
  pub publishes : ep.publish ≡ publishes_on c ep.name
  pub announces :
      (ep.publish ≡ false)
      ⊎ ((build_announcement env c interface.mac (bytes_of ip) c.ttl ≡ ok ep.announcement)
          × (build_announcement env c interface.mac (bytes_of ip) 0 ≡ ok ep.goodbye))

abbrev pub Distinct : List Endpoint → Type 0
Distinct [] = Unit
Distinct (ep ∷ eps) = All (λ x. x.name ≢ ep.name) eps × Distinct eps

pub record IsMade (env : Env) (net : Net) (c : Configuration) (seen : List Bytes) (e : Endpoints)
    : Type 0 where
  pub endpoints : All (IsEndpoint env net c e.ips) e.made
  pub unseen : All (λ ep. has_text seen ep.name ≡ false) e.made
  pub distinct : Distinct e.made

IsEndpoint-more :
    (env : Env) (net : Net) (c : Configuration) (x : Bytes) (ips : List Bytes) (ep : Endpoint)
    → IsEndpoint env net c ips ep
    → IsEndpoint env net c (x ∷ ips) ep
unfolding has_text
IsEndpoint-more env net c x ips ep h = record {
  interface = h.interface;
  ip = h.ip;
  opened = h.opened;
  own = let o = h.own in ground (arith, o);
  publishes = h.publishes;
  announces = h.announces;
}

-- What `make_endpoint` makes without an error
make_endpoint-eq :
    (env : Env) (net : Net) (c : Configuration) (n : Bytes) (ip : Ipv4) (i : NetInterface)
    (ips : List Bytes)
    → open_endpoint net c n ≡ ok (ip, i)
    → (make_endpoint env c n (ip, i)).1 ≡ none
    → ((make_endpoint env c n (ip, i)).0.name ≡ n)
      × IsEndpoint env net c (dotted ip ∷ ips) (make_endpoint env c n (ip, i)).0
unfolding has_text
make_endpoint-eq env net c n ip i ips opened =
    by_publish (publishes_on c n) refl (build_announcement env c i.mac (bytes_of ip) c.ttl)
      (build_announcement env c i.mac (bytes_of ip) 0) refl refl
  where
    mine : has_text (dotted ip ∷ ips) (dotted ip) ≡ true
    mine = rw ((equal_iff (dotted ip) (dotted ip)).1 refl) refl

    Made : Endpoint × Option BuildError → Type 0
    Made x = x.1 ≡ none → (x.0.name ≡ n) × IsEndpoint env net c (dotted ip ∷ ips) x.0

    by_publish :
        (publish : Bool)
        → publishes_on c n ≡ publish
        → (a b : DnsResult Bytes) → build_announcement env c i.mac (bytes_of ip) c.ttl ≡ a
        → build_announcement env c i.mac (bytes_of ip) 0 ≡ b
        → Made (if publish then announced n a b else (endpoint_with n false [] [], none))
    by_publish false p a b e f none_failed = (
      refl,
      record {
        interface = i;
        ip = ip;
        opened = opened;
        own = mine;
        publishes = sym p;
        announces = inl refl;
      },
    )
    by_publish true p (ok a) (ok b) e f none_failed = (
      refl,
      record {
        interface = i;
        ip = ip;
        opened = opened;
        own = mine;
        publishes = sym p;
        announces = inr (e, f);
      },
    )
    by_publish true p (ok a) (err x) e f failed = absurd (cc failed)
    by_publish true p (err x) b e f failed = absurd (cc failed)

or-false : (a b : Bool) → (a || b) ≡ false → (a ≡ false) × (b ≡ false)
or-false true b h = absurd (cc h)
or-false false b h = (refl, h)

has_text-other :
    (n : Bytes) (seen : List Bytes) (s : Bytes)
    → has_text (n ∷ seen) s ≡ false
    → (s ≢ n) × (has_text seen s ≡ false)
unfolding has_text
has_text-other n seen s h =
    let (other, unseen) = or-false (equal n s) (has_text seen s) h in
    (λ same. absurd (cc (other, (equal_iff n s).1 (sym same))), unseen)

add_endpoint-IsMade :
    (env : Env) (net : Net) (c : Configuration) (seen : List Bytes) (n ip : Bytes)
    (x : Endpoint × Option BuildError) (rest : Endpoints)
    → has_text seen n ≡ false
    → (x.1 ≡ none → (x.0.name ≡ n) × IsEndpoint env net c (ip ∷ rest.ips) x.0)
    → (rest.failure ≡ none → IsMade env net c (n ∷ seen) rest)
    → (add_endpoint ip x rest).failure ≡ none
    → IsMade env net c seen (add_endpoint ip x rest)
add_endpoint-IsMade env net c seen n ip (ep, some e) rest new made h failed = absurd (cc failed)
add_endpoint-IsMade env net c seen n ip (ep, none) rest new made h good =
    let (name, endpoint) = made refl in
    let k = h good in
    record {
      endpoints = (
        endpoint,
        All-map _ _ (λ x. IsEndpoint-more env net c ip rest.ips x) rest.made k.endpoints,
      );
      unseen = (
        ap (has_text seen) name ∙ new,
        All-map _ _ (λ x u. (has_text-other n seen x.name u).1) rest.made k.unseen,
      );
      distinct = (
        All-map _ _ (λ x u e. (has_text-other n seen x.name u).0 (e ∙ name)) rest.made k.unseen,
        k.distinct,
      );
    }

add_opened-IsMade :
    (env : Env) (net : Net) (c : Configuration) (seen : List Bytes) (n : Bytes)
    (o : Result BuildError (Ipv4 × NetInterface)) (rest : Endpoints)
    → open_endpoint net c n ≡ o
    → has_text seen n ≡ false
    → (rest.failure ≡ none → IsMade env net c (n ∷ seen) rest)
    → (add_opened env c n o rest).failure ≡ none
    → IsMade env net c seen (add_opened env c n o rest)
add_opened-IsMade env net c seen n (err e) rest opened new h failed = absurd (cc failed)
add_opened-IsMade env net c seen n (ok (ip, i)) rest opened new h good =
    add_endpoint-IsMade env net c seen n (dotted ip) (make_endpoint env c n (ip, i)) rest new
      (make_endpoint-eq env net c n ip i rest.ips opened) h good

if-IsMade :
    (env : Env) (net : Net) (c : Configuration) (seen : List Bytes) (b : Bool) (x y : Endpoints)
    → (x.failure ≡ none → IsMade env net c seen x)
    → (b ≡ false → y.failure ≡ none → IsMade env net c seen y)
    → (if b then x else y).failure ≡ none
    → IsMade env net c seen (if b then x else y)
if-IsMade env net c seen true x y h k = h
if-IsMade env net c seen false x y h k = k refl

pub make_endpoints-IsMade :
    (env : Env) (net : Net) (c : Configuration) (seen ns : List Bytes)
    → (make_endpoints env net c seen ns).failure ≡ none
    → IsMade env net c seen (make_endpoints env net c seen ns)
unfolding make_endpoints
make_endpoints-IsMade env net c seen [] good = record { endpoints = tt; unseen = tt; distinct = tt }
make_endpoints-IsMade env net c seen (n ∷ ns) good =
    if-IsMade env net c seen (has_text seen n) _ _ (make_endpoints-IsMade env net c seen ns)
      (λ new.
        add_opened-IsMade env net c seen n (open_endpoint net c n)
          (make_endpoints env net c (n ∷ seen) ns) refl new
          (make_endpoints-IsMade env net c (n ∷ seen) ns))
      good

add_endpoint-made :
    (ip : Bytes) (x : Endpoint × Option BuildError) (rest : Endpoints)
    → (add_endpoint ip x rest).failure ≡ none
    → (x.1 ≡ none) × ((add_endpoint ip x rest).made ≡ x.0 ∷ rest.made) × (rest.failure ≡ none)
add_endpoint-made ip (ep, some e) rest failed = absurd (cc failed)
add_endpoint-made ip (ep, none) rest good = (refl, refl, good)

pub add_opened-made :
    (env : Env) (net : Net) (c : Configuration) (n : Bytes)
    (o : Result BuildError (Ipv4 × NetInterface)) (rest : Endpoints)
    → open_endpoint net c n ≡ o
    → (add_opened env c n o rest).failure ≡ none
    → (ep : Endpoint) × (ep.name ≡ n)
      × ((add_opened env c n o rest).made ≡ ep ∷ rest.made)
      × (rest.failure ≡ none)
add_opened-made env net c n (err e) rest opened failed = absurd (cc failed)
add_opened-made env net c n (ok (ip, i)) rest opened good =
    let (fine, made, before) =
      add_endpoint-made (dotted ip) (make_endpoint env c n (ip, i)) rest good in
    (
      (make_endpoint env c n (ip, i)).0,
      (make_endpoint-eq env net c n ip i rest.ips opened fine).0,
      made,
      before,
    )
