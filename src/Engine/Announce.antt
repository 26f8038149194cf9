-- ===== src/Engine/Announce.antt =====
-- What the engine sends of its own accord: `start`, whose goroutine announces and asks for the MFD's
-- services, and `close`, which takes the announcements back.
pub mod Told
pub mod Goodbye
use yachtsense_link_emulator.Common.{
  ℕ, ◌*◌, ◌/◌, ◌≤◌, Bool, true, false, ◌&&◌, ◌||◌, List, [], ◌∷◌, ◌++◌, ltb, ◌==◌, if◌then◌else◌,
  length, ok, err, arith,
}
use yachtsense_link_emulator.Common.Bytes.{Bytes}
use yachtsense_link_emulator.Dns.Types.{DnsResult, rtsp_service, rym_service, raydb_service}
use yachtsense_link_emulator.Dns.Name.{encode_dns_name}
use yachtsense_link_emulator.Dns.Message.Build.{append_uint16, put_uint16, empty_header}
use yachtsense_link_emulator.Dns.Cache.{second}
use yachtsense_link_emulator.Engine.Loop.{
  Endpoint, Engine, Shared, Sent, Outside, multicast, send, fail,
}

-- The interval of the ticker that repeats the announcement, in nanoseconds
unfoldable pub announce_interval : ℕ → ℕ
announce_interval ttl =
    let half = ttl * second / 2 in
    let at_least = if ltb half second then second else half in
    if ltb (60 * second) at_least then 60 * second else at_least

-- `announce`: through every endpoint that publishes, up to the first send that fails
unfoldable pub announce_through : Outside → List Endpoint → List Sent × Bool
announce_through out [] = ([], true)
announce_through out (ep ∷ eps) =
    let (sent, done) = announce_through out eps in
    if ep.publish
    then (if length ep.announcement == 0 || out.can_send ep.name
        then (send ep.name ep.announcement multicast ++ sent, done)
        else ([], false))
    else (sent, done)

abbrev pub announce : Outside → Engine → Shared → Shared × List Sent
announce out g s =
    let (sent, done) = announce_through out g.endpoints in (if done then s else fail s, sent)

-- The name of a question; `encodeDNSName`'s error is dropped, with nil for the name.
abbrev pub wire_or_nil : DnsResult Bytes → Bytes
wire_or_nil (ok w) = w
wire_or_nil (err e) = []

unfoldable pub append_browse : Bytes → List Bytes → Bytes
unfolding append_uint16
append_browse p [] = p
append_browse p (s ∷ ss) =
    append_browse (append_uint16 (append_uint16 (p ++ wire_or_nil (encode_dns_name s)) 12) 1) ss

-- The packet of `query`: three questions for the services of the MFD
unfoldable pub browse_packet : Bytes
unfolding append_browse put_uint16 encode_dns_name
browse_packet =
    append_browse (put_uint16 empty_header 4 3) (rtsp_service ∷ rym_service ∷ raydb_service ∷ [])

-- `query`, through the MFD's network; its error is dropped.
unfoldable pub browse : Outside → Engine → List Sent
browse out g =
    if out.can_send g.axiom_endpoint.name
    then send g.axiom_endpoint.name browse_packet multicast
    else []

-- What wakes the announcing goroutine: one timer and two tickers
pub data Wake : Type 0 where
  initial announce_tick browse_tick : Wake

unfoldable pub awake : Outside → Engine → Wake → Shared → Shared × List Sent
unfolding announce_through browse
awake out g initial s = announce out g s
awake out g announce_tick s = announce out g s
awake out g browse_tick s = (s, browse out g)

-- `start`, up to its loop: an announcement, and then the questions even where it failed
unfoldable pub start : Outside → Engine → Shared → Shared × List Sent
unfolding announce_through browse
start out g s = let (s', sent) = announce out g s in (s', sent ++ browse out g)

-- The goodbyes of `close`; their errors are dropped.
unfoldable pub close : Outside → List Endpoint → List Sent
close out [] = []
close out (ep ∷ eps) =
    if ep.publish && out.can_send ep.name
    then send ep.name ep.goodbye multicast ++ close out eps
    else close out eps

-- Where the records live two seconds or more, the interval of the ticker that repeats the announcement
-- is at least a second and at most a minute, and two intervals fit in the records' lifetime.
pub announce_interval-le :
    (ttl : ℕ)
    → 2 ≤ ttl
    → (second ≤ announce_interval ttl)
      × (announce_interval ttl ≤ 60 * second)
      × (2 * announce_interval ttl ≤ ttl * second)
unfolding announce_interval
announce_interval-le ttl long = ground arith
