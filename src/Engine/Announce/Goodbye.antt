-- ===== src/Engine/Announce/Goodbye.antt =====
-- Who hears the goodbyes of `close` (daemon.go).
use mathlib.Core.List.{Mem, mem-cons_self, mem-cons_of_mem}
use yachtsense_link_emulator.Common.{
  All-map, All-append, sym, ap, Bool, true, false, ◌&&◌, List, [], ◌∷◌, ◌++◌, All, ◌≡◌, refl, ◌⊎◌,
  inl, inr, Bool-cases,
}
use yachtsense_link_emulator.Common.Bytes.{Bytes}
use yachtsense_link_emulator.Engine.Announce.{close}
use yachtsense_link_emulator.Engine.Loop.{Endpoint, Sent, Outside, multicast, send}
use yachtsense_link_emulator.Engine.Announce.Told.{Went, send-Went, Went-right, if-holds}

-- An endpoint that is silent or cannot send, or whose goodbye went, if it has one
abbrev pub TakenBack : Outside → List Sent → Endpoint → Type 0
TakenBack out sent ep =
    (ep.publish ≡ false) ⊎ (out.can_send ep.name ≡ false) ⊎ Went ep ep.goodbye sent

TakenBack-right :
    (out : Outside) (xs ys : List Sent) (ep : Endpoint)
    → TakenBack out ys ep
    → TakenBack out (xs ++ ys) ep
TakenBack-right out xs ys ep (inl silent) = inl silent
TakenBack-right out xs ys ep (inr (inl cannot)) = inr (inl cannot)
TakenBack-right out xs ys ep (inr (inr went)) = inr (inr (Went-right ep ep.goodbye xs ys went))

-- A goodbye of an endpoint that publishes
abbrev pub IsGoodbye : List Endpoint → Sent → Type 0
IsGoodbye eps x =
    (ep : Endpoint) × Mem ep eps
    × (ep.publish ≡ true)
    × (x ≡ record { through = ep.name; payload = ep.goodbye; target = multicast })

send-IsGoodbye :
    (ep : Endpoint) (eps : List Endpoint) (p : Bytes)
    → ep.publish ≡ true
    → ep.goodbye ≡ p
    → All (IsGoodbye (ep ∷ eps)) (send ep.name p multicast)
send-IsGoodbye ep eps [] publishes e = tt
send-IsGoodbye ep eps (b ∷ p) publishes e = (
  (
    ep,
    mem-cons_self,
    publishes,
    ap (λ q. record { through = ep.name; payload = q; target = multicast }) (sym e),
  ),
  tt,
)

more-IsGoodbye :
    (ep : Endpoint) (eps : List Endpoint) (x : Sent) → IsGoodbye eps x → IsGoodbye (ep ∷ eps) x
more-IsGoodbye ep eps x (ep', m, p, e) = (ep', mem-cons_of_mem ep m, p, e)

quiet :
    (out : Outside) (ep : Endpoint) (sent : List Sent)
    → (ep.publish && out.can_send ep.name) ≡ false
    → TakenBack out sent ep
quiet out ep sent h = elim (Bool-cases ep.publish) [
  | inr silent ↦ inl silent
  | inl publishes ↦ inr (inl (rw publishes at h))
]

and-true : (a b : Bool) → (a && b) ≡ true → a ≡ true
and-true true b h = refl
and-true false b h = absurd (cc h)

-- Where the engine ends, every endpoint that publishes, can send and has a goodbye sends it to its
-- whole network, even where another one cannot send, and nothing but these goodbyes is sent.
pub close-TakenBack :
    (out : Outside) (eps : List Endpoint)
    → All (TakenBack out (close out eps)) eps × All (IsGoodbye eps) (close out eps)
unfolding close
close-TakenBack out [] = (tt, tt)
close-TakenBack out (ep ∷ eps) =
    let (back, only) = close-TakenBack out eps in
    let goodbye = send ep.name ep.goodbye multicast in
    if-holds (λ x. All (TakenBack out x) (ep ∷ eps) × All (IsGoodbye (ep ∷ eps)) x)
      (ep.publish && out.can_send ep.name) _ (close out eps)
      (λ good. (
        (
          inr (inr (send-Went ep ep.goodbye (close out eps))),
          All-map _ _ (TakenBack-right out goodbye (close out eps)) eps back,
        ),
        All-append _ goodbye (close out eps)
            (send-IsGoodbye ep eps ep.goodbye (and-true ep.publish (out.can_send ep.name) good)
              refl)
            (All-map _ _ (more-IsGoodbye ep eps) (close out eps) only),
      ))
      (λ bad. (
        (quiet out ep (close out eps) bad, back),
        All-map _ _ (more-IsGoodbye ep eps) (close out eps) only,
      ))
