-- ===== src/Engine/Schedule/Safe.antt =====
-- The engine of daemon.go through any sequence of turns.
use mathlib.Core.List.{Mem}
use yachtsense_link_emulator.Common.{
  All-append, All-map, All-self, ℕ, zero, suc, Bool, true, false, List, [], ◌∷◌, ◌++◌, Option, none,
  map, if◌then◌else◌, All, refl, arith,
}
use yachtsense_link_emulator.Dns.Types.{Env}
use yachtsense_link_emulator.Dns.Filter.{RelayReason}
use yachtsense_link_emulator.Engine.Receive.{round}
use yachtsense_link_emulator.Engine.Receive.Bounds.{IsBounded, AreBounded, round-AreBounded}
use yachtsense_link_emulator.Engine.Receive.Flow.{round-IsCaused}
use yachtsense_link_emulator.Engine.Announce.{
  initial, announce_tick, browse_tick, awake, start, browse, announce, announce_through,
}
use yachtsense_link_emulator.Engine.Schedule.{
  Worker, Read, Act, reads, sends, AreAccounted, System, workers_at, started, work, work_at, Step,
  receives, wakes, Reach, here, next, follows, IsSound, IsSafe,
}
use yachtsense_link_emulator.Engine.Loop.{
  new_shared, Endpoint, Engine, Shared, Received, Outside, fail,
}
use yachtsense_link_emulator.Engine.Schedule.Accounts.{
  announce_through-IsAccounted, browse-IsAccounted, sends-AreAccounted, append-AreAccounted,
  announced-AreAccounted, browsed-AreAccounted, read-AreAccounted,
}

workers_at-IsSound :
    (g : Engine) (now : ℕ) (eps : List Endpoint)
    → All (λ ep. Mem ep g.endpoints) eps
    → All (IsSound g) (workers_at now eps)
unfolding workers_at
workers_at-IsSound g now [] h = tt
workers_at-IsSound g now (ep ∷ eps) h =
    (record { mine = h.0; packets = omega arith }, workers_at-IsSound g now eps h.1)

if-IsBounded : (b : Bool) (s : Shared) → IsBounded s → IsBounded (if b then s else fail s)
if-IsBounded true s h = h
if-IsBounded false s h = record { services = h.services; hosts = h.hosts; names = h.names }

started-IsSafe :
    (env : Env) (g : Engine) (out : Outside) (mdns : Bool) (reason : RelayReason) (now : ℕ)
    → IsSafe env g (started out g mdns reason now)
unfolding start
started-IsSafe env g out mdns reason now = record {
  loops = workers_at-IsSound g now g.endpoints (All-self g.endpoints);
  bounded =
      if-IsBounded (announce_through out g.endpoints).1 (new_shared mdns (g.relay, reason))
        (record { services = omega arith; hosts = omega arith; names = omega arith });
  accounted = sends-AreAccounted env g none ((announce_through out g.endpoints).0 ++ browse out g) (
      All-append _ (announce_through out g.endpoints).0 (browse out g)
        (announce_through-IsAccounted env g none out g.endpoints (All-self g.endpoints))
        (browse-IsAccounted env g none out));
}

-- What one turn keeps: the worker, what is shared, what it reads and sends
record Keeps (env : Env) (g : Engine) (P : Type 0) (s : Shared) (acts : List Act) : Type 0 where
  sound : P
  bounded : IsBounded s
  accounted : (last : Option Read) → AreAccounted env g last acts

work-Keeps :
    (env : Env) (out : Outside) (g : Engine) (now : ℕ) (r : Received) (w : Worker) (s : Shared)
    → IsSound g w
    → IsBounded s
    → let x = work env out g now r w s in Keeps env g (IsSound g x.0) x.1 x.2
work-Keeps env out g now r w s h b =
    let kept =
      round-AreBounded env out g w.endpoint now r w.loop s
        (record { packets = h.packets; shared = b }) in
    by_running w.running kept
  where
    read : Read
    read = record { endpoint = w.endpoint; time = now; received = r }

    caused :
        (last : Option Read)
        → AreAccounted env g last
            (reads read ∷ map sends (round env out g w.endpoint now r w.loop s).sent)
    caused last =
        read-AreAccounted env g last read (round env out g w.endpoint now r w.loop s).sent (
          All-map _ _ (λ x c. follows read refl h.mine c) _
            (round-IsCaused env out g w.endpoint now r w.loop s))

    idle : (last : Option Read) → AreAccounted env g last []
    idle last = sends-AreAccounted env g last [] tt

    by_running :
        (running : Bool)
        → AreBounded
            (round env out g w.endpoint now r w.loop s).loop
            (round env out g w.endpoint now r w.loop s).shared
        → let a = round env out g w.endpoint now r w.loop s in
          let x =
            if◌then◌else◌ {A = Worker × Shared × List Act} running
              (
                record w { loop = a.loop; running = a.goes_on },
                a.shared,
                reads (record { endpoint = w.endpoint; time = now; received = r })
                    ∷ map sends a.sent,
              )
              (w, s, []) in
          Keeps env g (IsSound g x.0) x.1 x.2
    by_running true kept = record {
      sound = record { mine = h.mine; packets = kept.packets };
      bounded = kept.shared;
      accounted = λ last. caused last;
    }
    by_running false kept = record { sound = h; bounded = b; accounted = λ last. idle last }

work_at-Keeps :
    (env : Env) (out : Outside) (g : Engine) (now : ℕ) (r : Received) (i : ℕ) (ws : List Worker)
    (s : Shared)
    → All (IsSound g) ws
    → IsBounded s
    → let x = work_at env out g now r i ws s in Keeps env g (All (IsSound g) x.0) x.1 x.2
unfolding work_at
work_at-Keeps env out g now r i [] s h b = record {
  sound = tt;
  bounded = b;
  accounted = λ last. sends-AreAccounted env g last [] tt;
}
work_at-Keeps env out g now r zero (w ∷ ws) s h b =
    let k = work-Keeps env out g now r w s h.0 b in
    record { sound = (k.sound, h.1); bounded = k.bounded; accounted = k.accounted }
work_at-Keeps env out g now r (suc i) (w ∷ ws) s h b =
    let k = work_at-Keeps env out g now r i ws s h.1 b in
    record { sound = (h.0, k.sound); bounded = k.bounded; accounted = k.accounted }

announce-turn-IsSafe :
    (env : Env) (g : Engine) (out : Outside) (t : System)
    → IsSafe env g t
    → IsSafe env g (record t {
      state = (announce out g t.state).0;
      history = t.history ++ map sends (announce out g t.state).1;
    })
announce-turn-IsSafe env g out t h = record {
  loops = h.loops;
  bounded = if-IsBounded (announce_through out g.endpoints).1 t.state h.bounded;
  accounted =
      append-AreAccounted env g none t.history (map sends (announce_through out g.endpoints).0)
        h.accounted (announced-AreAccounted env g out);
}

Step-IsSafe :
    (env : Env) (g : Engine) {t u : System} → Step env g t u → IsSafe env g t → IsSafe env g u
unfolding awake
Step-IsSafe env g (receives out now r i t) h =
    let k = work_at-Keeps env out g now r i t.workers t.state h.loops h.bounded in
    record {
      loops = k.sound;
      bounded = k.bounded;
      accounted =
          append-AreAccounted env g none t.history (work_at env out g now r i t.workers t.state).2
            h.accounted k.accounted;
    }
Step-IsSafe env g (wakes out initial t) h = announce-turn-IsSafe env g out t h
Step-IsSafe env g (wakes out announce_tick t) h = announce-turn-IsSafe env g out t h
Step-IsSafe env g (wakes out browse_tick t) h = record {
  loops = h.loops;
  bounded = h.bounded;
  accounted =
      append-AreAccounted env g none t.history (map sends (browse out g)) h.accounted
        (browsed-AreAccounted env g out);
}

Reach-keeps :
    (env : Env) (g : Engine) {t u : System} → Reach env g t u → IsSafe env g t → IsSafe env g u
Reach-keeps env g here h = h
Reach-keeps env g (next before step) h = Step-IsSafe env g step (Reach-keeps env g before h)

-- However the loops and the announcing goroutine take turns, whatever the loops read and whenever:
-- the tables that the engine keeps stay within 256 services, 512 hosts, 1024 names, and 256 packets
-- for each loop; and all that it has sent is an announcement of an endpoint that publishes, the
-- questions for the MFD's services, or what the last read before it calls for, which is then a packet
-- of another host.
pub Reach-IsSafe :
    (env : Env) (g : Engine) (out : Outside) (mdns : Bool) (reason : RelayReason) (now : ℕ)
    (t : System)
    → Reach env g (started out g mdns reason now) t
    → IsSafe env g t
Reach-IsSafe env g out mdns reason now t reached =
    Reach-keeps env g reached (started-IsSafe env g out mdns reason now)
