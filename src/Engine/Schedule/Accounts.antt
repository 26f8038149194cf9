-- ===== src/Engine/Schedule/Accounts.antt =====
-- What the engine of daemon.go sends, accounted for by its last read.
use mathlib.Core.List.{Mem}
use yachtsense_link_emulator.Common.{
  All-append, All-self, ◌||◌, List, [], ◌∷◌, ◌++◌, Option, some, map, ◌==◌, length, All, refl, inl,
  inr, Bool-cases,
}
use yachtsense_link_emulator.Dns.Types.{Env}
use yachtsense_link_emulator.Engine.Announce.{browse, browse_packet, announce_through}
use yachtsense_link_emulator.Engine.Schedule.{
  Read, Act, reads, sends, AreAccounted, IsAccounted, announces, asks,
}
use yachtsense_link_emulator.Engine.Loop.{Endpoint, Engine, Sent, Outside, multicast, send}
use yachtsense_link_emulator.Engine.Relay.Flow.{send-All}

pub announce_through-IsAccounted :
    (env : Env) (g : Engine) (last : Option Read) (out : Outside) (eps : List Endpoint)
    → All (λ ep. Mem ep g.endpoints) eps
    → All (IsAccounted env g last) (announce_through out eps).0
unfolding announce_through
announce_through-IsAccounted env g last out [] h = tt
announce_through-IsAccounted env g last out (ep ∷ eps) h = elim (Bool-cases ep.publish) [
  | inr silent ↦ rw silent (announce_through-IsAccounted env g last out eps h.1)
  | inl publishes ↦ elim (Bool-cases (length ep.announcement == 0 || out.can_send ep.name)) [
    | inr bad ↦ rw (publishes, bad) tt
    | inl good ↦
        rw (publishes, good)
          (All-append _ (send ep.name ep.announcement multicast) (announce_through out eps).0
            (send-All (IsAccounted env g last) ep.name ep.announcement multicast
              (announces ep h.0 publishes refl refl refl))
            (announce_through-IsAccounted env g last out eps h.1))
  ]
]

pub browse-IsAccounted :
    (env : Env) (g : Engine) (last : Option Read) (out : Outside)
    → All (IsAccounted env g last) (browse out g)
unfolding browse
browse-IsAccounted env g last out = elim (Bool-cases (out.can_send g.axiom_endpoint.name)) [
  | inl good ↦ rw good (
      send-All (IsAccounted env g last) g.axiom_endpoint.name browse_packet multicast
        (asks refl refl refl))
  | inr bad ↦ rw bad tt
]

pub sends-AreAccounted :
    (env : Env) (g : Engine) (last : Option Read) (sent : List Sent)
    → All (IsAccounted env g last) sent
    → AreAccounted env g last (map sends sent)
unfolding AreAccounted
sends-AreAccounted env g last [] h = tt
sends-AreAccounted env g last (x ∷ xs) h = (h.0, sends-AreAccounted env g last xs h.1)

-- What is accounted for whatever was read before it continues any history.
pub append-AreAccounted :
    (env : Env) (g : Engine) (last : Option Read) (xs ys : List Act)
    → AreAccounted env g last xs
    → ((l : Option Read) → AreAccounted env g l ys)
    → AreAccounted env g last (xs ++ ys)
unfolding AreAccounted
append-AreAccounted env g last [] ys h k = k last
append-AreAccounted env g last (reads r ∷ xs) ys h k = append-AreAccounted env g (some r) xs ys h k
append-AreAccounted env g last (sends x ∷ xs) ys h k =
    (h.0, append-AreAccounted env g last xs ys h.1 k)

pub announced-AreAccounted :
    (env : Env) (g : Engine) (out : Outside) (last : Option Read)
    → AreAccounted env g last (map sends (announce_through out g.endpoints).0)
announced-AreAccounted env g out last =
    sends-AreAccounted env g last (announce_through out g.endpoints).0
      (announce_through-IsAccounted env g last out g.endpoints (All-self g.endpoints))

pub browsed-AreAccounted :
    (env : Env) (g : Engine) (out : Outside) (last : Option Read)
    → AreAccounted env g last (map sends (browse out g))
browsed-AreAccounted env g out last =
    sends-AreAccounted env g last (browse out g) (browse-IsAccounted env g last out)

pub read-AreAccounted :
    (env : Env) (g : Engine) (last : Option Read) (r : Read) (sent : List Sent)
    → All (IsAccounted env g (some r)) sent
    → AreAccounted env g last (reads r ∷ map sends sent)
unfolding AreAccounted
read-AreAccounted env g last r sent h = sends-AreAccounted env g (some r) sent h
