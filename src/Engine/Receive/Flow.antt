-- ===== src/Engine/Receive/Flow.antt =====
-- Where the packets come from that `readLoop` (daemon.go) sends.
use yachtsense_link_emulator.Common.{
  All-append, All-map, ℕ, ◌+◌, Bool, true, false, not, ◌&&◌, List, [], ltb, ◌==◌, if◌then◌else◌,
  All, ok, err, ◌≡◌, refl, ◌⊎◌, inl, inr, Bool-cases,
}
use yachtsense_link_emulator.Common.Bytes.{Bytes}
use yachtsense_link_emulator.Dns.Types.{Env, DnsResult, DnsMessage}
use yachtsense_link_emulator.Dns.Message.Parse.{parse_dns_message}
use yachtsense_link_emulator.Dns.Relevance.{member}
use yachtsense_link_emulator.Engine.Observe.{lookup}
use yachtsense_link_emulator.Engine.Reply.{unicast_reply}
use yachtsense_link_emulator.Engine.Receive.{
  own_questions, reply, answer, accept, take_parsed, take_packet, round,
}
use yachtsense_link_emulator.Engine.Relay.Flow.{Relays, send-All, take_message-All}
use yachtsense_link_emulator.Engine.Loop.{
  Endpoint, Engine, Shared, LoopState, Received, timeout, cancelled, read_error, packet, multicast,
  sender, Sent, Outside, Round, send, tick, remember, is_repeat, reply_gap,
}
use yachtsense_link_emulator.Engine.Relay.{take_message}

-- An answer to a query: the announcement to all, or its unicast form to the sender
pub record Answers (env : Env) (ep : Endpoint) (ip : Bytes) (port : ℕ) (m : DnsMessage) (x : Sent)
    : Type 0 where
  pub query : m.response ≡ false
  pub publishes : ep.publish ≡ true
  pub through : x.through ≡ ep.name
  pub content :
      ((x.target ≡ multicast) × (x.payload ≡ ep.announcement))
      ⊎ ((x.target ≡ sender ip port)
          × (unicast_reply env ep.announcement m (not (port == 5353)) ≡ ok x.payload))

-- A packet that a loop may send for what it received: never for a packet of the emulator itself
pub record IsCaused (env : Env) (g : Engine) (ep : Endpoint) (now : ℕ) (r : Received) (x : Sent)
    : Type 0 where
  pub ip : Bytes
  pub port : ℕ
  pub bytes : Bytes
  pub message : DnsMessage
  pub received : r ≡ packet ip port bytes
  pub foreign : member g.local_ips ip ≡ false
  pub parsed : parse_dns_message env bytes ≡ ok message
  pub why : Answers env ep ip port message x ⊎ Relays env g ep now message x

answer-All :
    (P : Sent → Type 0) (through ip : Bytes) (port : ℕ) (r : DnsResult Bytes)
    → ((p : Bytes)
        → r ≡ ok p
        → P (record { through = through; payload = p; target = sender ip port }))
    → All P (answer through ip port r)
answer-All P through ip port (ok p) h = send-All P through p (sender ip port) (h p refl)
answer-All P through ip port (err e) h = tt

reply-Answers :
    (env : Env) (g : Engine) (ep : Endpoint) (now : ℕ) (ip : Bytes) (port : ℕ) (m : DnsMessage)
    (l : LoopState)
    → All (Answers env ep ip port m) (reply env g ep now ip port m l).1
unfolding reply
reply-Answers env g ep now ip port m l =
    by_test (m.response) ep.publish refl refl
      (own_questions g m.questions (false, not (port == 5353))).0
      (own_questions g m.questions (false, not (port == 5353))).1
  where
    what :
        (uni : Bool)
        → m.response ≡ false
        → ep.publish ≡ true
        → All (Answers env ep ip port m) (
            if uni
            then answer ep.name ip port (unicast_reply env ep.announcement m (not (port == 5353)))
            else send ep.name ep.announcement multicast)
    what true q p =
        answer-All (Answers env ep ip port m) ep.name ip port
          (unicast_reply env ep.announcement m (not (port == 5353)))
          (λ a e. record { query = q; publishes = p; through = refl; content = inr (refl, e) })
    what false q p =
        send-All (Answers env ep ip port m) ep.name ep.announcement multicast
          (record { query = q; publishes = p; through = refl; content = inl (refl, refl) })

    by_test :
        (response publish : Bool)
        → m.response ≡ response
        → ep.publish ≡ publish
        → (own uni : Bool)
        → All
            (Answers env ep ip port m)
            (if◌then◌else◌ {A = LoopState × List Sent}
              (not response && publish && (own && ltb (l.last_reply + reply_gap) now))
              (
                record l { last_reply = now },
                if uni
                    then answer ep.name ip port
                        (unicast_reply env ep.announcement m (not (port == 5353)))
                    else send ep.name ep.announcement multicast,
              )
              (l, [])).1
    by_test true publish q p own uni = tt
    by_test false false q p own uni = tt
    by_test false true q p own uni = elim (Bool-cases (own && ltb (l.last_reply + reply_gap) now)) [
      | inl yes_now ↦ rw yes_now (what uni q p)
      | inr not_now ↦ rw not_now tt
    ]

pub if-sent :
    (P : Sent → Type 0) (b : Bool) (x y : Round)
    → (b ≡ true → All P x.sent)
    → (b ≡ false → All P y.sent)
    → All P (if b then x else y).sent
if-sent P true x y h k = h refl
if-sent P false x y h k = k refl

accept-All :
    (env : Env) (out : Outside) (g : Engine) (ep : Endpoint) (now : ℕ) (ip : Bytes) (port : ℕ)
    (p : Bytes) (m : DnsMessage) (l : LoopState) (s : Shared)
    → All
        (λ x. Answers env ep ip port m x ⊎ Relays env g ep now m x)
        (accept env out g ep now ip port p m l s).sent
unfolding accept
accept-All env out g ep now ip port p m l s =
    let kept : LoopState = record l {
      seen_packets = remember env now (out.digest p) l.seen_packets;
    } in
    All-append _ (reply env g ep now ip port m kept).1 (take_message env out g ep now ip m s).1
      (All-map _ _ (λ x h. inl h) _ (reply-Answers env g ep now ip port m kept))
      (All-map _ _ (λ x h. inr h) _ (take_message-All env out g ep now ip m s))

take_parsed-IsCaused :
    (env : Env) (out : Outside) (g : Engine) (ep : Endpoint) (now : ℕ) (ip : Bytes) (port : ℕ)
    (p : Bytes) (parsed : DnsResult DnsMessage) (l : LoopState) (s : Shared)
    → parse_dns_message env p ≡ parsed
    → member g.local_ips ip ≡ false
    → All
        (IsCaused env g ep now (packet ip port p))
        (take_parsed env out g ep now ip port p parsed l s).sent
take_parsed-IsCaused env out g ep now ip port p (err e) l s h foreign = tt
take_parsed-IsCaused env out g ep now ip port p (ok m) l s h foreign =
    if-sent _ (m.response && not (port == 5353)) _ _ (λ dropped. tt)
      (λ valid.
        if-sent _ (is_repeat now (lookup (out.digest p) l.seen_packets)) _ _ (λ repeated. tt)
          (λ fresh.
            All-map _ _
              (λ x why. record {
                ip = ip;
                port = port;
                bytes = p;
                message = m;
                received = refl;
                foreign = foreign;
                parsed = h;
                why = why;
              })
              _ (accept-All env out g ep now ip port p m l s)))

-- Whatever a round of a loop sends, it sends for a packet that it received, from another host, and
-- that parses: an answer to a query, on a network where the emulator is announced, or, where the
-- relay is on, what the filter leaves of a response from the MFD's network or of a query for it.
pub round-IsCaused :
    (env : Env) (out : Outside) (g : Engine) (ep : Endpoint) (now : ℕ) (r : Received)
    (l : LoopState) (s : Shared)
    → All (IsCaused env g ep now r) (round env out g ep now r l s).sent
unfolding round take_packet
round-IsCaused env out g ep now timeout l s = tt
round-IsCaused env out g ep now cancelled l s = tt
round-IsCaused env out g ep now read_error l s = tt
round-IsCaused env out g ep now (packet ip port p) l s =
    if-sent _ (member g.local_ips ip) _ _ (λ own. tt)
      (λ foreign.
        if-sent _ (ltb 100 (tick now l).count) _ _ (λ many. tt)
          (λ few.
            take_parsed-IsCaused env out g ep now ip port p (parse_dns_message env p) (tick now l) s
              refl foreign))
