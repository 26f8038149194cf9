-- ===== src/Dashboard/Access.antt =====
-- Whom `dashboardHandler` (dashboard.go) serves, and for which requests.
use mathlib.Core.List.{Mem}
use yachtsense_link_emulator.Common.{
  All-append, All-map, All-self, ℕ, Bool, true, false, not, ◌&&◌, ◌||◌, List, [], ◌∷◌, ◌++◌, Option,
  none, some, if◌then◌else◌, All, ◌≡◌, refl, ◌⊎◌, inl, inr, Bool-cases,
}
use yachtsense_link_emulator.Common.Bytes.{Bytes, codes, equal, equal_iff}
use yachtsense_link_emulator.Config.Text.{Ipv4, parse_prefix4}
use yachtsense_link_emulator.Config.Settings.{Settings}
use yachtsense_link_emulator.Config.Interfaces.{Resolved}
use yachtsense_link_emulator.Dashboard.{
  Prefix, contains_ip, loopback, cidr_fields, prefixes_of, app_prefixes, dashboard_networks, Remote,
  any_contains, dashboard_allowed, Request, Response, read_only, file, status, Snapshot, asset,
  page, handle, status_reply,
}

-- The networks from which the dashboard may be read: the router itself, the RayNet network, those of
-- the app interfaces, and those of the settings
pub data IsListed (addresses_of : Bytes → Option (List Bytes)) (c : Settings) (r : Resolved)
    (p : Prefix) : Type 0 where
  router : p ≡ loopback → IsListed addresses_of c r p
  raynet : parse_prefix4 r.cidr ≡ some p → IsListed addresses_of c r p
  app :
      (name : Bytes) (addrs : List Bytes) (text : Bytes)
      → Mem name r.apps
      → addresses_of name ≡ some addrs
      → Mem text addrs
      → parse_prefix4 text ≡ some p
      → IsListed addresses_of c r p
  listed :
      (text : Bytes)
      → Mem text (cidr_fields [] c.dashboard_cidrs)
      → parse_prefix4 text ≡ some p
      → IsListed addresses_of c r p

prefixes_of-All :
    (P : Prefix → Type 0) (texts : List Bytes)
    → All (λ s. (p : Prefix) → parse_prefix4 s ≡ some p → P p) texts
    → All P (prefixes_of texts)
unfolding prefixes_of
prefixes_of-All P [] h = tt
prefixes_of-All P (s ∷ texts) h = by_parse (parse_prefix4 s) h.0 (prefixes_of-All P texts h.1)
  where
    by_parse :
        (o : Option Prefix)
        → ((p : Prefix) → o ≡ some p → P p)
        → All P (prefixes_of texts)
        → All P (elim o as (λ x. List Prefix) [
          | none ↦ prefixes_of texts
          | some p ↦ p ∷ prefixes_of texts
        ])
    by_parse none k rest = rest
    by_parse (some p) k rest = (k p refl, rest)

app_prefixes-All :
    (P : Prefix → Type 0) (addresses_of : Bytes → Option (List Bytes)) (names : List Bytes)
    → All
        (λ name. (addrs : List Bytes) → addresses_of name ≡ some addrs → All P (prefixes_of addrs))
        names
    → All P (app_prefixes addresses_of names)
unfolding app_prefixes
app_prefixes-All P addresses_of [] h = tt
app_prefixes-All P addresses_of (name ∷ names) h =
    by_found (addresses_of name) h.0 (app_prefixes-All P addresses_of names h.1)
  where
    by_found :
        (o : Option (List Bytes))
        → ((addrs : List Bytes) → o ≡ some addrs → All P (prefixes_of addrs))
        → All P (app_prefixes addresses_of names)
        → All P (elim o as (λ x. List Prefix) [
          | none ↦ app_prefixes addresses_of names
          | some addrs ↦ prefixes_of addrs ++ app_prefixes addresses_of names
        ])
    by_found none k rest = rest
    by_found (some addrs) k rest =
        All-append P (prefixes_of addrs) (app_prefixes addresses_of names) (k addrs refl) rest

dashboard_networks-All :
    (addresses_of : Bytes → Option (List Bytes)) (c : Settings) (r : Resolved)
    → All (IsListed addresses_of c r) (dashboard_networks addresses_of c r)
unfolding dashboard_networks
dashboard_networks-All addresses_of c r =
    let P = IsListed addresses_of c r in
    (
      router refl,
      All-append P (prefixes_of (r.cidr ∷ []))
          (app_prefixes addresses_of r.apps ++ prefixes_of (cidr_fields [] c.dashboard_cidrs))
          (prefixes_of-All P (r.cidr ∷ []) (λ p e. raynet e, tt))
          (All-append P (app_prefixes addresses_of r.apps)
            (prefixes_of (cidr_fields [] c.dashboard_cidrs))
            (app_prefixes-All P addresses_of r.apps (
              All-map _ _
                (λ name here addrs found. prefixes_of-All P addrs (
                  All-map _ _ (λ text on p e. app name addrs text here found on e) addrs
                    (All-self addrs)))
                r.apps (All-self r.apps)))
            (prefixes_of-All P (cidr_fields [] c.dashboard_cidrs) (
              All-map _ _ (λ text on p e. listed text on e) (cidr_fields [] c.dashboard_cidrs)
                (All-self (cidr_fields [] c.dashboard_cidrs))))),
    )

any_contains-some :
    (P : Prefix → Type 0) (ps : List Prefix) (a : Ipv4)
    → All P ps
    → any_contains ps a ≡ true
    → (p : Prefix) × P p × (contains_ip p a ≡ true)
unfolding any_contains
any_contains-some P [] a h e = absurd (cc e)
any_contains-some P (p ∷ ps) a h e = elim (Bool-cases (contains_ip p a)) [
  | inl inside ↦ (p, h.0, inside)
  | inr outside ↦ any_contains-some P ps a h.1 (rw outside at e)
]

-- A client that may read: all may, or its address lies in one of the networks.
pub data MayRead (addresses_of : Bytes → Option (List Bytes)) (c : Settings) (r : Resolved)
    : Remote → Type 0 where
  anyone : {o : Option Ipv4} → c.dashboard_allow_all ≡ true → MayRead addresses_of c r (some o)
  inside :
      {a : Ipv4} (p : Prefix)
      → IsListed addresses_of c r p
      → contains_ip p a ≡ true
      → MayRead addresses_of c r (some (some a))

dashboard_allowed-MayRead :
    (addresses_of : Bytes → Option (List Bytes)) (c : Settings) (r : Resolved) (o : Remote)
    → dashboard_allowed o c.dashboard_allow_all (dashboard_networks addresses_of c r) ≡ true
    → MayRead addresses_of c r o
unfolding dashboard_allowed
dashboard_allowed-MayRead addresses_of c r none e = absurd (cc e)
dashboard_allowed-MayRead addresses_of c r (some none) e = anyone e
dashboard_allowed-MayRead addresses_of c r (some (some a)) e = by_all c.dashboard_allow_all refl e
  where
    nets : List Prefix
    nets = dashboard_networks addresses_of c r

    by_all :
        (all_clients : Bool)
        → c.dashboard_allow_all ≡ all_clients
        → (all_clients || any_contains nets a) ≡ true
        → MayRead addresses_of c r (some (some a))
    by_all true open_to_all k = anyone open_to_all
    by_all false closed k =
        let (p, on, within) =
          any_contains-some _ nets a (dashboard_networks-All addresses_of c r) k in
        inside p on within

-- A response with content: a file or the status
abbrev pub has_content : Response → Bool
has_content (file name kind body) = true
has_content (status reply) = true
has_content _ = false

-- A file or the status is sent only for GET or HEAD, and only to a client that may read: every client
-- where the settings allow all, and otherwise one with an address on the router itself, on the RayNet
-- network, on that of an app interface, or on one of the settings' networks.
pub handle-MayRead :
    (addresses_of : Bytes → Option (List Bytes)) (files : Bytes → Option Bytes) (c : Settings)
    (r : Resolved) (now : ℕ) (s : Snapshot) (q : Request)
    → has_content (handle files (dashboard_networks addresses_of c r) c now s q) ≡ true
    → MayRead addresses_of c r q.remote × ((q.method ≡ codes "GET") ⊎ (q.method ≡ codes "HEAD"))
unfolding handle
handle-MayRead addresses_of files c r now s q content =
    let nets = dashboard_networks addresses_of c r in
    elim (Bool-cases (dashboard_allowed q.remote c.dashboard_allow_all nets)) [
      | inr refused ↦ absurd (cc (rw refused at content))
      | inl allowed ↦ (
        dashboard_allowed-MayRead addresses_of c r q.remote allowed,
        by_method (equal q.method (codes "GET")) (equal q.method (codes "HEAD")) refl refl
            (rw allowed at content),
      )
    ]
  where
    by_method :
        (get head : Bool)
        → equal q.method (codes "GET") ≡ get
        → equal q.method (codes "HEAD") ≡ head
        → has_content (if not get && not head then read_only else page files now s q (asset q.path))
          ≡ true
        → (q.method ≡ codes "GET") ⊎ (q.method ≡ codes "HEAD")
    by_method true head g h k = inl ((equal_iff q.method (codes "GET")).0 g)
    by_method false true g h k = inr ((equal_iff q.method (codes "HEAD")).0 h)
    by_method false false g h k = absurd (cc k)

-- The router itself may always read the status.
pub handle-router :
    (addresses_of : Bytes → Option (List Bytes)) (files : Bytes → Option Bytes) (c : Settings)
    (r : Resolved) (now : ℕ) (s : Snapshot) (a : Ipv4)
    → contains_ip loopback a ≡ true
    → handle files
        (dashboard_networks addresses_of c r)
        c
        now
        s
        (record { remote = some (some a); method = codes "GET"; path = codes "/api/status" })
      ≡ status (some (status_reply now s))
unfolding handle dashboard_allowed dashboard_networks any_contains equal
handle-router addresses_of files c r now s a home = elim (Bool-cases c.dashboard_allow_all) [
  | inl all ↦ rw all refl
  | inr some_only ↦ rw (some_only, home) refl
]
