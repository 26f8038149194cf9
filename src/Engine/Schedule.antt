-- ===== src/Engine/Schedule.antt =====
-- The engine as a whole: the loops of its endpoints and the announcing goroutine, which take turns in
-- any order. A round is one step: what the loops share is behind locks, and each loop keeps the rest.
pub mod Accounts
pub mod Safe
use mathlib.Core.List.{Mem}
use yachtsense_link_emulator.Common.{
  All-append, ℕ, zero, suc, ◌+◌, ◌≤◌, Bool, true, false, List, [], ◌∷◌, ◌++◌, Option, none, some,
  map, if◌then◌else◌, length, All, ◌≡◌, refl, ◌⊎◌, inl, inr, arith, Bool-cases,
}
use yachtsense_link_emulator.Common.Bytes.{Bytes}
use yachtsense_link_emulator.Dns.Types.{Env}
use yachtsense_link_emulator.Dns.Filter.{RelayReason}
use yachtsense_link_emulator.Engine.Observe.{Seen, EngineState}
use yachtsense_link_emulator.Engine.Receive.{round}
use yachtsense_link_emulator.Engine.Receive.Bounds.{IsBounded}
use yachtsense_link_emulator.Engine.Receive.Flow.{IsCaused}
use yachtsense_link_emulator.Engine.Announce.{
  Wake, initial, announce_tick, browse_tick, awake, start, browse, browse_packet, announce,
  announce_through,
}
use yachtsense_link_emulator.Engine.Loop.{
  new_shared, Endpoint, Engine, Shared, LoopState, Received, Sent, Outside, Round, Target,
  multicast, send, fail,
}

pub record Worker : Type 0 where
  pub endpoint : Endpoint
  pub loop : LoopState
  pub running : Bool

-- A read of a loop: the loop's endpoint, the time and what the read gave
pub record Read : Type 0 where
  pub endpoint : Endpoint
  pub time : ℕ
  pub received : Received

-- What the engine does that others see
pub data Act : Type 0 where
  reads : Read → Act
  sends : Sent → Act

-- The engine, and all that it has read and sent, the earliest first
pub record System : Type 0 where
  pub workers : List Worker
  pub state : Shared
  pub history : List Act

-- The loops as `start` begins them
unfoldable pub workers_at : ℕ → List Endpoint → List Worker
workers_at now [] = []
workers_at now (ep ∷ eps) =
    record {
      endpoint = ep;
      loop = record { window = now; count = 0; seen_packets = []; last_reply = 0 };
      running = true;
    }
    ∷ workers_at now eps

-- The engine behind `start`, with what `buildEngine` made for the loops to share
abbrev pub started : Outside → Engine → Bool → RelayReason → ℕ → System
started out g mdns reason now =
    let (s, sent) = start out g (new_shared mdns (g.relay, reason)) in
    record { workers = workers_at now g.endpoints; state = s; history = map sends sent }

-- A worker's round, if it runs
abbrev pub work :
    Env → Outside → Engine → ℕ → Received → Worker → Shared → Worker × Shared × List Act
work env out g now r w s =
    let a = round env out g w.endpoint now r w.loop s in
    if w.running
    then (
      record w { loop = a.loop; running = a.goes_on },
      a.shared,
      reads (record { endpoint = w.endpoint; time = now; received = r }) ∷ map sends a.sent,
    )
    else (w, s, [])

unfoldable pub work_at :
    Env
    → Outside
    → Engine
    → ℕ
    → Received
    → ℕ
    → List Worker
    → Shared
    → List Worker × Shared × List Act
work_at env out g now r i [] s = ([], s, [])
work_at env out g now r zero (w ∷ ws) s =
    let (w', s', acts) = work env out g now r w s in (w' ∷ ws, s', acts)
work_at env out g now r (suc i) (w ∷ ws) s =
    let (ws', s', acts) = work_at env out g now r i ws s in (w ∷ ws', s', acts)

abbrev pub turn : Env → Outside → Engine → ℕ → Received → ℕ → System → System
turn env out g now r i t =
    let (ws, s, acts) = work_at env out g now r i t.workers t.state in
    record { workers = ws; state = s; history = t.history ++ acts }

abbrev pub wake_turn : Outside → Engine → Wake → System → System
wake_turn out g w t =
    let (s, sent) = awake out g w t.state in
    record t { state = s; history = t.history ++ map sends sent }

-- One step: a loop's round, at any time and whatever it reads, or the announcing goroutine's
pub data Step (env : Env) (g : Engine) : System → System → Type 0 where
  receives :
      (out : Outside) (now : ℕ) (r : Received) (i : ℕ) (t : System)
      → Step env g t (turn env out g now r i t)
  wakes : (out : Outside) (w : Wake) (t : System) → Step env g t (wake_turn out g w t)

pub data Reach (env : Env) (g : Engine) (t : System) : System → Type 0 where
  here : Reach env g t t
  next : {u v : System} → Reach env g t u → Step env g u v → Reach env g t v

-- What the engine may send, by the last read before it: an announcement of an endpoint that publishes,
-- the questions for the MFD's services on its network, or what the packet that was read calls for
pub data IsAccounted (env : Env) (g : Engine) (last : Option Read) (x : Sent) : Type 0 where
  announces :
      (ep : Endpoint)
      → Mem ep g.endpoints
      → ep.publish ≡ true
      → x.through ≡ ep.name
      → x.payload ≡ ep.announcement
      → x.target ≡ multicast
      → IsAccounted env g last x
  asks :
      x.through ≡ g.axiom_endpoint.name
      → x.payload ≡ browse_packet
      → x.target ≡ multicast
      → IsAccounted env g last x
  follows :
      (r : Read)
      → last ≡ some r
      → Mem r.endpoint g.endpoints
      → IsCaused env g r.endpoint r.time r.received x
      → IsAccounted env g last x

-- All that is sent in a history, which continues one whose last read is `last`
unfoldable pub AreAccounted : Env → Engine → Option Read → List Act → Type 0
AreAccounted env g last [] = Unit
AreAccounted env g last (reads r ∷ acts) = AreAccounted env g (some r) acts
AreAccounted env g last (sends x ∷ acts) = IsAccounted env g last x × AreAccounted env g last acts

-- A loop reads for one of the engine's endpoints and remembers at most 256 packets.
pub record IsSound (g : Engine) (w : Worker) : Type 0 where
  pub mine : Mem w.endpoint g.endpoints
  pub packets : length w.loop.seen_packets ≤ 256

pub record IsSafe (env : Env) (g : Engine) (t : System) : Type 0 where
  pub loops : All (IsSound g) t.workers
  pub bounded : IsBounded t.state
  pub accounted : AreAccounted env g none t.history
