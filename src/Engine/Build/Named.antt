-- ===== src/Engine/Build/Named.antt =====
-- Which networks the endpoints are for that the loop of `buildEngine` (daemon.go) makes.
use mathlib.Core.List.{Mem, mem-cons_self, mem-cons_of_mem}
use yachtsense_link_emulator.Common.{
  All-map, Bool, true, false, List, [], ◌∷◌, none, map, All, ◌≡◌, refl, sym, subst, ◌⊎◌, inl, inr,
  if◌then◌else◌, Bool-cases,
}
use yachtsense_link_emulator.Common.Bytes.{Bytes, equal, equal_iff}
use yachtsense_link_emulator.Dns.Types.{Env}
use yachtsense_link_emulator.Dns.Message.Build.{Configuration}
use yachtsense_link_emulator.Config.Interfaces.{has_text}
use yachtsense_link_emulator.Engine.Build.{Net, open_endpoint, Endpoints, make_endpoints}
use yachtsense_link_emulator.Engine.Build.Made.{add_opened-made}
use yachtsense_link_emulator.Engine.Loop.{Endpoint}

-- The networks that have an endpoint
abbrev pub names_of : List Endpoint → List Bytes
names_of eps = map (λ ep. ep.name) eps

-- Each name has its endpoint, unless it was seen before, and each endpoint has one of the names.
pub record AreNamed (seen ns : List Bytes) (eps : List Endpoint) : Type 0 where
  pub complete : All (λ n. (has_text seen n ≡ true) ⊎ Mem n (names_of eps)) ns
  pub known : All (λ ep. Mem ep.name ns) eps

AreNamed-seen :
    (seen ns : List Bytes) (n : Bytes) (eps : List Endpoint)
    → has_text seen n ≡ true
    → AreNamed seen ns eps
    → AreNamed seen (n ∷ ns) eps
AreNamed-seen seen ns n eps old h = record {
  complete = (inl old, h.complete);
  known = All-map _ _ (λ ep m. mem-cons_of_mem n m) eps h.known;
}

seen_or_named :
    (n : Bytes) (seen : List Bytes) (eps : List Endpoint) (m : Bytes)
    → (has_text (n ∷ seen) m ≡ true) ⊎ Mem m (names_of eps)
    → (has_text seen m ≡ true) ⊎ Mem m (n ∷ names_of eps)
unfolding has_text
seen_or_named n seen eps m (inr there) = inr (mem-cons_of_mem n there)
seen_or_named n seen eps m (inl h) = elim (Bool-cases (equal n m)) [
  | inl same ↦
      inr (subst (λ x. Mem m (x ∷ names_of eps)) (sym ((equal_iff n m).0 same)) mem-cons_self)
  | inr other ↦ inl (rw other at h)
]

AreNamed-more :
    (seen ns : List Bytes) (ep : Endpoint) (eps : List Endpoint)
    → AreNamed (ep.name ∷ seen) ns eps
    → AreNamed seen (ep.name ∷ ns) (ep ∷ eps)
AreNamed-more seen ns ep eps h = record {
  complete =
      (inr mem-cons_self, All-map _ _ (λ m x. seen_or_named ep.name seen eps m x) ns h.complete);
  known = (mem-cons_self, All-map _ _ (λ x m. mem-cons_of_mem ep.name m) eps h.known);
}

AreNamed-opened :
    (seen ns : List Bytes) (n : Bytes) (ep : Endpoint) (eps made : List Endpoint)
    → ep.name ≡ n
    → made ≡ ep ∷ eps
    → AreNamed (n ∷ seen) ns eps
    → AreNamed seen (n ∷ ns) made
AreNamed-opened seen ns n ep eps made name order h =
    subst (λ x. AreNamed seen (n ∷ ns) x) (sym order)
      (subst (λ x. AreNamed seen (x ∷ ns) (ep ∷ eps)) name
        (AreNamed-more seen ns ep eps (subst (λ x. AreNamed (x ∷ seen) ns eps) (sym name) h)))

if-AreNamed :
    (seen ns : List Bytes) (b : Bool) (x y : Endpoints)
    → (b ≡ true → x.failure ≡ none → AreNamed seen ns x.made)
    → (b ≡ false → y.failure ≡ none → AreNamed seen ns y.made)
    → (if b then x else y).failure ≡ none
    → AreNamed seen ns (if b then x else y).made
if-AreNamed seen ns true x y h k = h refl
if-AreNamed seen ns false x y h k = k refl

pub make_endpoints-AreNamed :
    (env : Env) (net : Net) (c : Configuration) (seen ns : List Bytes)
    → (make_endpoints env net c seen ns).failure ≡ none
    → AreNamed seen ns (make_endpoints env net c seen ns).made
unfolding make_endpoints
make_endpoints-AreNamed env net c seen [] good = record { complete = tt; known = tt }
make_endpoints-AreNamed env net c seen (n ∷ ns) good =
    if-AreNamed seen (n ∷ ns) (has_text seen n) _ _
      (λ old fine. AreNamed-seen seen ns n _ old (make_endpoints-AreNamed env net c seen ns fine))
      (λ new fine.
        let (ep, name, order, before) =
          add_opened-made env net c n (open_endpoint net c n)
            (make_endpoints env net c (n ∷ seen) ns) refl fine in
        AreNamed-opened seen ns n ep _ _ name order
          (make_endpoints-AreNamed env net c (n ∷ seen) ns before))
      good
