-- ===== src/Engine/Loop.antt =====
-- The data of the engine of daemon.go and of `readLoop`: endpoints, what the loops share, what each
-- keeps, and its two limits, on packets in a second and on packets that repeat.
use yachtsense_link_emulator.Common.{
  ℕ, ◌+◌, ◌%◌, Bool, true, false, List, [], ◌∷◌, Option, none, some, ltb, leb, if◌then◌else◌,
  length,
}
use yachtsense_link_emulator.Common.Bytes.{Bytes}
use yachtsense_link_emulator.Dns.Types.{Env}
use yachtsense_link_emulator.Dns.Cache.{second}
use yachtsense_link_emulator.Dns.Filter.{RelayReason}
use yachtsense_link_emulator.Engine.Observe.{Table, store, remove_at, Seen, EngineState}

-- `endpoint`, known by its name: `buildEngine` opens one for each name.
pub record Endpoint : Type 0 where
  pub name : Bytes
  pub publish : Bool
  pub announcement : Bytes
  pub goodbye : Bytes

-- The part of `engine` that does not change while it runs; `host` and `own_instance` are the two
-- names that the emulator announces, normalised.
pub record Engine : Type 0 where
  pub endpoints : List Endpoint
  pub axiom_endpoint : Endpoint
  pub relay : Bool
  pub local_ips : List Bytes
  pub host : Bytes
  pub own_instance : Bytes

-- What the engine's loops share: what `observe` keeps, and of the reported state the app that asked,
-- the counts, whether announcing and the relay are active, why the relay is as it is, and whether the
-- engine failed
pub record Shared : Type 0 where
  pub learned : EngineState
  pub app_seen : Seen
  pub query_count : ℕ
  pub response_count : ℕ
  pub mdns_active : Bool
  pub relay_active : Bool
  pub reason : RelayReason
  pub failed : Bool

-- What one loop keeps; the times of `seen_packets` belong to digests, each once.
pub record LoopState : Type 0 where
  pub window : ℕ
  pub count : ℕ
  pub seen_packets : Table ℕ
  pub last_reply : ℕ

-- What a read gives: nothing in time, the end of the engine, an error, or a packet with its sender
pub data Received : Type 0 where
  timeout cancelled read_error : Received
  packet : Bytes → ℕ → Bytes → Received

pub data Target : Type 0 where
  multicast : Target
  sender : Bytes → ℕ → Target

pub record Sent : Type 0 where
  pub through : Bytes
  pub payload : Bytes
  pub target : Target

-- What the loop asks of the system: the digest of a packet, whether a send through an endpoint
-- succeeds, and the order of the map of touched instances
pub record Outside : Type 0 where
  pub digest : Bytes → Bytes
  pub can_send : Bytes → Bool
  pub order : List Bytes → List Bytes

-- The state behind a round, what was sent, and whether the loop goes on
pub record Round : Type 0 where
  pub loop : LoopState
  pub shared : Shared
  pub sent : List Sent
  pub goes_on : Bool

-- `send`
abbrev pub send : Bytes → Bytes → Target → List Sent
send through [] target = []
send through (b ∷ p) target = record { through = through; payload = b ∷ p; target = target } ∷ []

-- `g.fail`, which also ends the engine's context
abbrev pub fail : Shared → Shared
fail s = record s { failed = true; mdns_active = false; relay_active = false }

abbrev pub unseen : Seen
unseen = record {
  seen_name = [];
  seen_ip = [];
  seen_interface = [];
  seen_service = [];
  seen_port = 0;
  last_seen = 0;
  seen_expires = 0;
}

-- What the loops share in a new engine: empty tables, and what `buildEngine` reports
abbrev pub new_shared : Bool → Bool × RelayReason → Shared
new_shared mdns (relay, reason) = record {
  learned = record { names = []; obs = []; hosts = []; axiom_seen = unseen; touched = [] };
  app_seen = unseen;
  query_count = 0;
  response_count = 0;
  mdns_active = mdns;
  relay_active = relay;
  reason = reason;
  failed = false;
}

-- `100 * time.Millisecond`, `900 * time.Millisecond`
abbrev pub reply_gap : ℕ
reply_gap = 100000000

abbrev pub repeat_gap : ℕ
repeat_gap = 900000000

-- The window of a second, and the count of the packets in it
unfoldable pub tick : ℕ → LoopState → LoopState
tick now l =
    if ltb (l.window + second) now
    then record l { window = now; count = 1 }
    else record l { count = l.count + 1 }

unfoldable pub drop_old : ℕ → Table ℕ → Table ℕ
drop_old now [] = []
drop_old now ((d, t) ∷ seen) =
    if leb (t + second) now then drop_old now seen else (d, t) ∷ drop_old now seen

-- The digest was seen less than 900 milliseconds ago.
abbrev pub is_repeat : ℕ → Option ℕ → Bool
is_repeat now none = false
is_repeat now (some prior) = ltb now (prior + repeat_gap)

-- `seenPackets[digest] = now`, where at most 256 digests are kept
unfoldable pub remember : Env → ℕ → Bytes → Table ℕ → Table ℕ
unfolding drop_old remove_at store
remember env now d seen =
    let live = drop_old now seen in
    let room =
      if leb 256 (length seen)
      then (if leb 256 (length live)
          then remove_at (env.first_key (length live) % length live) live
          else live)
      else seen in
    store d now room
