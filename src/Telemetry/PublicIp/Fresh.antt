-- ===== src/Telemetry/PublicIp/Fresh.antt =====
-- The public addresses that `refreshPublicIPs` (dashboard.go) leaves in the links.
use yachtsense_link_emulator.Common.{
  ℕ, ◌+◌, ◌≤◌, Bool, true, false, not, ◌||◌, List, [], ◌∷◌, Option, none, some, ltb, leb, leb→le,
  if◌then◌else◌, length, ◌≡◌, refl, sym, ap, ◌∙◌, inl, inr, arith, Bool-cases,
}
use yachtsense_link_emulator.Common.Bytes.{Bytes, codes, equal, equal_iff}
use yachtsense_link_emulator.Config.Text.{safe_interface}
use yachtsense_link_emulator.Engine.Observe.{Table, lookup, store}
use yachtsense_link_emulator.Telemetry.PublicIp.Answers.{
  AreAnswers, answered-IsAnswer, lookup-AreAnswers, if-AreAnswers, remove-AreAnswers,
  drop_stale-AreAnswers,
}
use yachtsense_link_emulator.Telemetry.PublicIp.Remembered.{
  Outdated, IsFresh, idle, asked, remembered, Remembers, store-Remembers, before-Outdated,
}
use yachtsense_link_emulator.Telemetry.PublicIp.Keys.{key_of}
use yachtsense_link_emulator.Telemetry.PublicIp.{
  Link, PublicIpEntry, minute, answered, is_recent, value_or_empty, refresh_link, refresh_links,
  refresh_public_ips,
}

-- What one turn of the loop gives
record Turns (fetch : Bytes → Option Bytes) (now : ℕ) (old : Table PublicIpEntry) (l : Link)
    (x : Link × Table PublicIpEntry) : Type 0 where
  fresh : IsFresh fetch now old l x.0
  answers : AreAnswers x.1
  remembers : Remembers fetch now old x.1

asked-Turns :
    (fetch : Bytes → Option Bytes) (now : ℕ) (old : Table PublicIpEntry) (l : Link)
    (cache : Table PublicIpEntry)
    → AreAnswers cache
    → Remembers fetch now old cache
    → l.state ≡ codes "active"
    → safe_interface l.device ≡ true
    → Outdated now (key_of l.device l.ip) old
    → let value = answered (fetch l.device) in
      Turns fetch now old l (
        record l { public_ip = value },
        store (key_of l.device l.ip) (record { value = value; checked = now }) cache,
      )
unfolding store
asked-Turns fetch now old l cache h k active safe late = record {
  fresh = asked active safe late refl;
  answers = (answered-IsAnswer (fetch l.device), remove-AreAnswers (key_of l.device l.ip) cache h);
  remembers = store-Remembers fetch now l.device l.ip old cache safe late k;
}

recent-Turns :
    (fetch : Bytes → Option Bytes) (now : ℕ) (old : Table PublicIpEntry) (l : Link)
    (cache : Table PublicIpEntry) (e : PublicIpEntry)
    → AreAnswers cache
    → Remembers fetch now old cache
    → l.state ≡ codes "active"
    → safe_interface l.device ≡ true
    → lookup (key_of l.device l.ip) cache ≡ some e
    → now ≤ e.checked + minute
    → Turns fetch now old l (record l { public_ip = e.value }, cache)
recent-Turns fetch now old l cache e h k active safe found recent = record {
  fresh = elim (k l.device l.ip safe) [
    | inl same ↦
        remembered e active safe (sym same ∙ found) recent
          (lookup-AreAnswers (key_of l.device l.ip) cache e h found) refl
    | inr (late, there) ↦
        asked active safe late (ap (λ v. record l { public_ip = v }) (value_of_entry e there))
  ];
  answers = h;
  remembers = k;
}
  where
    value_of_entry :
        (x : PublicIpEntry)
        → lookup (key_of l.device l.ip) cache
          ≡ some (record { value = answered (fetch l.device); checked = now })
        → e.value ≡ answered (fetch l.device)
    value_of_entry x there = cc (found, there)

refresh_link-Turns :
    (fetch : Bytes → Option Bytes) (now : ℕ) (old : Table PublicIpEntry) (l : Link)
    (cache : Table PublicIpEntry)
    → AreAnswers cache
    → Remembers fetch now old cache
    → Turns fetch now old l (refresh_link fetch now l cache)
unfolding refresh_link
refresh_link-Turns fetch now old l cache h k =
    by_tests (equal l.state (codes "active")) (safe_interface l.device) refl refl (lookup key cache)
      refl
  where
    key : Bytes
    key = key_of l.device l.ip

    value : Bytes
    value = answered (fetch l.device)

    left : IsFresh fetch now old l l → Turns fetch now old l (l, cache)
    left x = record { fresh = x; answers = h; remembers = k }

    ask :
        equal l.state (codes "active") ≡ true
        → safe_interface l.device ≡ true
        → Outdated now key cache
        → Turns fetch now old l (
          record l { public_ip = value },
          store key (record { value = value; checked = now }) cache,
        )
    ask a s late =
        asked-Turns fetch now old l cache h k ((equal_iff l.state (codes "active")).0 a) s
          (before-Outdated fetch now old cache l.device l.ip s k late)

    by_tests :
        (active safe : Bool)
        → equal l.state (codes "active") ≡ active
        → safe_interface l.device ≡ safe
        → (found : Option PublicIpEntry) → lookup key cache ≡ found
        → Turns fetch now old l (
            if not active || not safe
            then (l, cache)
            else if is_recent now found
            then (record l { public_ip = value_or_empty found }, cache)
            else (
              record l { public_ip = value },
              store key (record { value = value; checked = now }) cache,
            ))
    by_tests false safe a s found e =
        left
          (idle (inl (λ same. absurd (cc ((equal_iff l.state (codes "active")).1 same, a)))) refl)
    by_tests true false a s found e = left (idle (inr s) refl)
    by_tests true true a s none e = ask a s (inl e)
    by_tests true true a s (some f) e = elim (Bool-cases (leb now (f.checked + minute))) [
      | inl recent ↦ rw recent (
          recent-Turns fetch now old l cache f h k ((equal_iff l.state (codes "active")).0 a) s e
            (leb→le now (f.checked + minute) recent))
      | inr late ↦ rw late (ask a s (inr (f, e, ground (arith, late))))
    ]

-- Links before and after, one by one
abbrev pub AllFresh :
    (Bytes → Option Bytes) → ℕ → Table PublicIpEntry → List Link → List Link → Type 0
AllFresh fetch now cache [] [] = Unit
AllFresh fetch now cache (x ∷ xs) (y ∷ ys) =
    IsFresh fetch now cache x y × AllFresh fetch now cache xs ys
AllFresh fetch now cache [] (y ∷ ys) = ⊥
AllFresh fetch now cache (x ∷ xs) [] = ⊥

refresh_links-AllFresh :
    (fetch : Bytes → Option Bytes) (now : ℕ) (old : Table PublicIpEntry) (links : List Link)
    (cache : Table PublicIpEntry)
    → AreAnswers cache
    → Remembers fetch now old cache
    → AllFresh fetch now old links (refresh_links fetch now links cache).0
      × AreAnswers (refresh_links fetch now links cache).1
unfolding refresh_links
refresh_links-AllFresh fetch now old [] cache h k = (tt, h)
refresh_links-AllFresh fetch now old (l ∷ ls) cache h k =
    let one = refresh_link-Turns fetch now old l cache h k in
    let rest =
      refresh_links-AllFresh fetch now old ls (refresh_link fetch now l cache).1 one.answers
        one.remembers in
    ((one.fresh, rest.0), rest.1)

-- Where the remembered values are answers, they are again, and by what is remembered at the begin every
-- link that is active on a safe device shows the value of the last minute for its device and address,
-- or, if there is none, the usable public address that the device answers now, or nothing; no other
-- link changes.
pub refresh_public_ips-AllFresh :
    (fetch : Bytes → Option Bytes) (now : ℕ) (links : List Link) (cache : Table PublicIpEntry)
    → AreAnswers cache
    → AllFresh fetch now cache links (refresh_public_ips fetch now links cache).0
      × AreAnswers (refresh_public_ips fetch now links cache).1
unfolding refresh_public_ips
refresh_public_ips-AllFresh fetch now links cache h =
    let (fresh, answers) =
      refresh_links-AllFresh fetch now cache links cache h (λ d ip safe. inl refl) in
    let after = (refresh_links fetch now links cache).1 in
    (
      fresh,
      if-AreAnswers (ltb 64 (length after)) _ _ (drop_stale-AreAnswers now after answers) answers,
    )
