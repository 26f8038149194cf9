-- ===== src/Engine/Announce/Told.antt =====
-- Who hears the announcements of `start` (daemon.go).
use mathlib.Core.List.{Mem, mem-cons_self, mem-cons_of_mem, mem-append_left, mem-append_right}
use yachtsense_link_emulator.Common.{
  All-map, append-nil, subst, Bool, true, false, ◌||◌, List, [], ◌∷◌, ◌++◌, ◌==◌, if◌then◌else◌,
  length, All, ◌≡◌, refl, ◌⊎◌, inl, inr,
}
use yachtsense_link_emulator.Common.Bytes.{Bytes}
use yachtsense_link_emulator.Engine.Announce.{
  announce, announce_through, browse, start, initial, announce_tick, awake,
}
use yachtsense_link_emulator.Engine.Loop.{
  Endpoint, Engine, Shared, Sent, Outside, multicast, send, fail,
}

-- The payload is empty, or it went through the endpoint to all its network.
abbrev pub Went : Endpoint → Bytes → List Sent → Type 0
Went ep p sent = (p ≡ []) ⊎ Mem (record { through = ep.name; payload = p; target = multicast }) sent

-- An announcement reached every network on which the engine publishes, and nothing else changed; or
-- one of them could not be sent, and the engine has failed.
pub data IsAnnounced (out : Outside) (g : Engine) (s : Shared) (x : Shared × List Sent)
    : Type 0 where
  all_told :
      All (λ ep. (ep.publish ≡ false) ⊎ Went ep ep.announcement x.1) g.endpoints
      → x.0 ≡ s
      → IsAnnounced out g s x
  blocked :
      (ep : Endpoint)
      → Mem ep g.endpoints
      → ep.publish ≡ true
      → out.can_send ep.name ≡ false
      → x.0 ≡ fail s
      → IsAnnounced out g s x

pub send-Went :
    (ep : Endpoint) (p : Bytes) (sent : List Sent) → Went ep p (send ep.name p multicast ++ sent)
send-Went ep [] sent = inl refl
send-Went ep (b ∷ p) sent = inr mem-cons_self

Went-left : (ep : Endpoint) (p : Bytes) (xs ys : List Sent) → Went ep p xs → Went ep p (xs ++ ys)
Went-left ep p xs ys (inl e) = inl e
Went-left ep p xs ys (inr m) = inr (mem-append_left ys m)

pub Went-right :
    (ep : Endpoint) (p : Bytes) (xs ys : List Sent) → Went ep p ys → Went ep p (xs ++ ys)
Went-right ep p xs ys (inl e) = inl e
Went-right ep p xs ys (inr m) = inr (mem-append_right xs m)

-- An endpoint that is silent, or whose announcement went
abbrev Told : List Sent → Endpoint → Type 0
Told sent ep = (ep.publish ≡ false) ⊎ Went ep ep.announcement sent

Told-left : (ys xs : List Sent) (ep : Endpoint) → Told xs ep → Told (xs ++ ys) ep
Told-left ys xs ep (inl silent) = inl silent
Told-left ys xs ep (inr went) = inr (Went-left ep ep.announcement xs ys went)

Told-right : (xs ys : List Sent) (ep : Endpoint) → Told ys ep → Told (xs ++ ys) ep
Told-right xs ys ep (inl silent) = inl silent
Told-right xs ys ep (inr went) = inr (Went-right ep ep.announcement xs ys went)

-- What the loop of `announce` gives
data Loop (out : Outside) (eps : List Endpoint) (x : List Sent × Bool) : Type 0 where
  done : All (Told x.0) eps → x.1 ≡ true → Loop out eps x
  stuck :
      (ep : Endpoint)
      → Mem ep eps
      → ep.publish ≡ true
      → out.can_send ep.name ≡ false
      → x.1 ≡ false
      → Loop out eps x

Loop-silent :
    (out : Outside) (ep : Endpoint) (eps : List Endpoint) (x : List Sent × Bool)
    → ep.publish ≡ false
    → Loop out eps x
    → Loop out (ep ∷ eps) x
Loop-silent out ep eps x silent (done h e) = done (inl silent, h) e
Loop-silent out ep eps x silent (stuck ep' m p c e) = stuck ep' (mem-cons_of_mem ep m) p c e

Loop-sent :
    (out : Outside) (ep : Endpoint) (eps : List Endpoint) (x : List Sent × Bool)
    → Loop out eps x
    → Loop out (ep ∷ eps) (send ep.name ep.announcement multicast ++ x.0, x.1)
Loop-sent out ep eps x (done h e) =
    done
      (
        inr (send-Went ep ep.announcement x.0),
        All-map _ _ (Told-right (send ep.name ep.announcement multicast) x.0) eps h,
      )
      e
Loop-sent out ep eps x (stuck ep' m p c e) = stuck ep' (mem-cons_of_mem ep m) p c e

or-false : (a b : Bool) → (a || b) ≡ false → b ≡ false
or-false false b h = h
or-false true b h = absurd (cc h)

pub if-holds {ℓ κ} :
    {A : Type ℓ} (P : A → Type κ) (b : Bool) (x y : A)
    → (b ≡ true → P x)
    → (b ≡ false → P y)
    → P (if b then x else y)
if-holds P true x y h k = h refl
if-holds P false x y h k = k refl

announce_through-Loop :
    (out : Outside) (eps : List Endpoint) → Loop out eps (announce_through out eps)
unfolding announce_through
announce_through-Loop out [] = done tt refl
announce_through-Loop out (ep ∷ eps) =
    let rest = announce_through-Loop out eps in
    if-holds (Loop out (ep ∷ eps)) ep.publish _ (announce_through out eps)
      (λ publishes.
        if-holds (Loop out (ep ∷ eps)) (length ep.announcement == 0 || out.can_send ep.name) _ _
          (λ good. Loop-sent out ep eps (announce_through out eps) rest)
          (λ bad.
            stuck ep mem-cons_self publishes
              (or-false (length ep.announcement == 0) (out.can_send ep.name) bad) refl))
      (λ silent. Loop-silent out ep eps (announce_through out eps) silent rest)

Loop-IsAnnounced :
    (out : Outside) (g : Engine) (s : Shared) (x : List Sent × Bool) (more : List Sent)
    → Loop out g.endpoints x
    → IsAnnounced out g s (if x.1 then s else fail s, x.0 ++ more)
Loop-IsAnnounced out g s x more (done h e) =
    all_told (All-map _ _ (Told-left more x.0) g.endpoints h) (rw e refl)
Loop-IsAnnounced out g s x more (stuck ep m p c e) = blocked ep m p c (rw e refl)

announce-IsAnnounced :
    (out : Outside) (g : Engine) (s : Shared) → IsAnnounced out g s (announce out g s)
announce-IsAnnounced out g s =
    subst (λ l. IsAnnounced out g s ((announce out g s).0, l)) (append-nil (announce out g s).1)
      (Loop-IsAnnounced out g s (announce_through out g.endpoints) []
        (announce_through-Loop out g.endpoints))

-- At the start of the engine, at its first timer and at every turn of its ticker, each endpoint that
-- publishes sends its announcement, if it is not empty, to its whole network and the engine goes on as
-- it was, or an endpoint that publishes cannot send and the engine is marked as failed.
pub start-IsAnnounced :
    (out : Outside) (g : Engine) (s : Shared)
    → IsAnnounced out g s (start out g s)
      × IsAnnounced out g s (awake out g initial s)
      × IsAnnounced out g s (awake out g announce_tick s)
unfolding start awake
start-IsAnnounced out g s = (
  Loop-IsAnnounced out g s (announce_through out g.endpoints) (browse out g)
      (announce_through-Loop out g.endpoints),
  announce-IsAnnounced out g s,
  announce-IsAnnounced out g s,
)
