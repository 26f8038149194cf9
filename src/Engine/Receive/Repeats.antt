-- ===== src/Engine/Receive/Repeats.antt =====
-- Packets that arrive again, in `readLoop` (daemon.go).
use yachtsense_link_emulator.Common.{
  ℕ, ◌+◌, ◌<◌, Bool, true, false, not, ◌&&◌, [], Option, none, some, ltb, ◌==◌, if◌then◌else◌,
  length, ok, err, ◌≡◌, refl, ◌∙◌, ap, arith,
}
use yachtsense_link_emulator.Common.Bytes.{Bytes, equal_iff}
use yachtsense_link_emulator.Dns.Types.{Env, DnsResult, DnsMessage}
use yachtsense_link_emulator.Dns.Message.Parse.{parse_dns_message}
use yachtsense_link_emulator.Dns.Relevance.{member}
use yachtsense_link_emulator.Engine.Observe.{Table, lookup, store}
use yachtsense_link_emulator.Engine.Receive.{accept, take_parsed, take_packet, round, quiet}
use yachtsense_link_emulator.Engine.Receive.Bounds.{reply-seen_packets, tick-seen_packets}
use yachtsense_link_emulator.Engine.Loop.{
  Endpoint, Engine, Shared, LoopState, packet, Outside, Round, tick, remember, is_repeat,
  repeat_gap,
}

lookup-store : {A : Type 0} (d : Bytes) (a : A) (t : Table A) → lookup d (store d a t) ≡ some a
unfolding lookup store
lookup-store d a t = rw ((equal_iff d d).1 refl) refl

lookup-remember :
    (env : Env) (now : ℕ) (d : Bytes) (t : Table ℕ) → lookup d (remember env now d t) ≡ some now
unfolding remember
lookup-remember env now d t = lookup-store d now _

if-lookup :
    (b : Bool) (x y : Round) (d : Bytes) (now : ℕ)
    → (0 < length x.sent → lookup d x.loop.seen_packets ≡ some now)
    → (0 < length y.sent → lookup d y.loop.seen_packets ≡ some now)
    → 0 < length (if b then x else y).sent
    → lookup d (if b then x else y).loop.seen_packets ≡ some now
if-lookup true x y d now h k = h
if-lookup false x y d now h k = k

accept-seen_packets :
    (env : Env) (out : Outside) (g : Engine) (ep : Endpoint) (now : ℕ) (ip : Bytes) (port : ℕ)
    (p : Bytes) (m : DnsMessage) (l : LoopState) (s : Shared)
    → lookup (out.digest p) (accept env out g ep now ip port p m l s).loop.seen_packets ≡ some now
unfolding accept
accept-seen_packets env out g ep now ip port p m l s =
    let kept : LoopState = record l {
      seen_packets = remember env now (out.digest p) l.seen_packets;
    } in
    rw (reply-seen_packets env g ep now ip port m kept)
      (lookup-remember env now (out.digest p) l.seen_packets)

take_parsed-seen_packets :
    (env : Env) (out : Outside) (g : Engine) (ep : Endpoint) (now : ℕ) (ip : Bytes) (port : ℕ)
    (p : Bytes) (parsed : DnsResult DnsMessage) (l : LoopState) (s : Shared)
    → 0 < length (take_parsed env out g ep now ip port p parsed l s).sent
    → lookup (out.digest p) (take_parsed env out g ep now ip port p parsed l s).loop.seen_packets
      ≡ some now
take_parsed-seen_packets env out g ep now ip port p (err e) l s h = absurd (ground (arith, h))
take_parsed-seen_packets env out g ep now ip port p (ok m) l s sent =
    if-lookup (m.response && not (port == 5353)) _ _ (out.digest p) now
      (λ h. absurd (ground (arith, h)))
      (if-lookup (is_repeat now (lookup (out.digest p) l.seen_packets)) _ _ (out.digest p) now
        (λ h. absurd (ground (arith, h)))
        (λ h. accept-seen_packets env out g ep now ip port p m l s))
      sent

-- A packet for which something was sent is known, with the time of that.
round-seen_packets :
    (env : Env) (out : Outside) (g : Engine) (ep : Endpoint) (now : ℕ) (ip : Bytes) (port : ℕ)
    (p : Bytes) (l : LoopState) (s : Shared)
    → 0 < length (round env out g ep now (packet ip port p) l s).sent
    → lookup (out.digest p) (round env out g ep now (packet ip port p) l s).loop.seen_packets
      ≡ some now
unfolding round take_packet
round-seen_packets env out g ep now ip port p l s =
    if-lookup (member g.local_ips ip) _ _ (out.digest p) now (λ h. absurd (ground (arith, h)))
      (if-lookup (ltb 100 (tick now l).count) _ _ (out.digest p) now
        (λ h. absurd (ground (arith, h)))
        (take_parsed-seen_packets env out g ep now ip port p (parse_dns_message env p) (tick now l)
          s))

-- Nothing is sent and what the loops share stays.
pub record IsQuiet (s : Shared) (r : Round) : Type 0 where
  pub nothing : r.sent ≡ []
  pub unchanged : r.shared ≡ s
  pub on : r.goes_on ≡ true

if-IsQuiet :
    (s : Shared) (b : Bool) (x y : Round)
    → IsQuiet s x
    → IsQuiet s y
    → IsQuiet s (if b then x else y)
if-IsQuiet s true x y h k = h
if-IsQuiet s false x y h k = k

quiet-IsQuiet : (l : LoopState) (s : Shared) → IsQuiet s (quiet l s)
quiet-IsQuiet l s = record { nothing = refl; unchanged = refl; on = refl }

take_parsed-IsQuiet :
    (env : Env) (out : Outside) (g : Engine) (ep : Endpoint) (now : ℕ) (ip : Bytes) (port : ℕ)
    (p : Bytes) (parsed : DnsResult DnsMessage) (l : LoopState) (s : Shared)
    → is_repeat now (lookup (out.digest p) l.seen_packets) ≡ true
    → IsQuiet s (take_parsed env out g ep now ip port p parsed l s)
take_parsed-IsQuiet env out g ep now ip port p (err e) l s h = quiet-IsQuiet l s
take_parsed-IsQuiet env out g ep now ip port p (ok m) l s h =
    if-IsQuiet s (m.response && not (port == 5353)) _ _ (quiet-IsQuiet l s)
      (rw h (quiet-IsQuiet l s))

is_repeat-soon :
    (now before : ℕ) (o : Option ℕ)
    → o ≡ some before
    → now < before + repeat_gap
    → is_repeat now o ≡ true
is_repeat-soon now before none e h = absurd (cc e)
is_repeat-soon now before (some t) e h = ground (arith, e, h)

-- Where a round of a loop sent something for a packet, its next round, less than 900 milliseconds
-- later, sends nothing for the same bytes, from whichever host and port they come, leaves what the
-- loops share as it is, and the loop goes on.
pub round-round :
    (env : Env) (out : Outside) (g : Engine) (ep : Endpoint) (before now : ℕ) (ip ip' : Bytes)
    (port port' : ℕ) (p : Bytes) (l : LoopState) (s s' : Shared)
    → let first = round env out g ep before (packet ip port p) l s in
      0 < length first.sent
      → now < before + repeat_gap
      → IsQuiet s' (round env out g ep now (packet ip' port' p) first.loop s')
unfolding round take_packet
round-round env out g ep before now ip ip' port port' p l s s' sent soon =
    let first = round env out g ep before (packet ip port p) l s in
    let known = round-seen_packets env out g ep before ip port p l s sent in
    let ticked = ap (lookup (out.digest p)) (tick-seen_packets now first.loop) ∙ known in
    if-IsQuiet s' (member g.local_ips ip') _ _ (quiet-IsQuiet first.loop s') (
      if-IsQuiet s' (ltb 100 (tick now first.loop).count) _ _
        (quiet-IsQuiet (tick now first.loop) s')
        (take_parsed-IsQuiet env out g ep now ip' port' p (parse_dns_message env p)
          (tick now first.loop) s' (is_repeat-soon now before _ ticked soon)))
