-- ===== src/Telemetry/PublicIp/Remembered.antt =====
-- What a turn of the loop of `refreshPublicIPs` (dashboard.go) shows by what is remembered.
use yachtsense_link_emulator.Common.{
  ℕ, ◌+◌, ◌≤◌, ◌<◌, true, false, Option, none, some, ◌≡◌, ◌≢◌, sym, ap, ◌∙◌, subst, ◌⊎◌, inl, inr,
  Bool-cases,
}
use yachtsense_link_emulator.Common.Bytes.{Bytes, codes, equal, equal_iff}
use yachtsense_link_emulator.Config.Text.{safe_interface}
use yachtsense_link_emulator.Engine.Observe.{Table, lookup, store}
use yachtsense_link_emulator.Telemetry.PublicIp.Answers.{IsAnswer}
use yachtsense_link_emulator.Telemetry.PublicIp.Keys.{
  key_of, key_of-device, lookup-store_other, lookup-store_same,
}
use yachtsense_link_emulator.Telemetry.PublicIp.{Link, PublicIpEntry, minute, answered}

-- No value is remembered for the key, or only one that is more than a minute old.
abbrev pub Outdated : ℕ → Bytes → Table PublicIpEntry → Type 0
Outdated now k cache =
    (lookup k cache ≡ none)
    ⊎ ((e : PublicIpEntry) × (lookup k cache ≡ some e) × (e.checked + minute < now))

-- What becomes of a link, by what is remembered when the refresh begins: a link that is not active or
-- is on an unsafe device stays as it is; another one shows what its device answers now where nothing
-- of the last minute is remembered, and otherwise the value that is.
pub data IsFresh (fetch : Bytes → Option Bytes) (now : ℕ) (cache : Table PublicIpEntry)
    (before after : Link) : Type 0 where
  idle :
      (before.state ≢ codes "active") ⊎ (safe_interface before.device ≡ false)
      → after ≡ before
      → IsFresh fetch now cache before after
  asked :
      before.state ≡ codes "active"
      → safe_interface before.device ≡ true
      → Outdated now (key_of before.device before.ip) cache
      → after ≡ record before { public_ip = answered (fetch before.device) }
      → IsFresh fetch now cache before after
  remembered :
      (e : PublicIpEntry)
      → before.state ≡ codes "active"
      → safe_interface before.device ≡ true
      → lookup (key_of before.device before.ip) cache ≡ some e
      → now ≤ e.checked + minute
      → IsAnswer e.value
      → after ≡ record before { public_ip = e.value }
      → IsFresh fetch now cache before after

-- What is remembered for a link in the course of a refresh: what was at its begin, or an answer of
-- its device now, in place of something outdated
abbrev pub Remembers :
    (Bytes → Option Bytes) → ℕ → Table PublicIpEntry → Table PublicIpEntry → Type 0
Remembers fetch now old cache =
    (d ip : Bytes)
    → safe_interface d ≡ true
    → (lookup (key_of d ip) cache ≡ lookup (key_of d ip) old)
      ⊎ (Outdated now (key_of d ip) old
          × (lookup (key_of d ip) cache
              ≡ some (record { value = answered (fetch d); checked = now })))

same-Outdated :
    (now : ℕ) (k : Bytes) (old cache : Table PublicIpEntry)
    → lookup k cache ≡ lookup k old
    → Outdated now k cache
    → Outdated now k old
same-Outdated now k old cache same (inl nothing) = inl (sym same ∙ nothing)
same-Outdated now k old cache same (inr (e, found, late)) = inr (e, sym same ∙ found, late)

pub store-Remembers :
    (fetch : Bytes → Option Bytes) (now : ℕ) (d ip : Bytes) (old cache : Table PublicIpEntry)
    → safe_interface d ≡ true
    → Outdated now (key_of d ip) old
    → Remembers fetch now old cache
    → Remembers fetch now old
        (store (key_of d ip) (record { value = answered (fetch d); checked = now }) cache)
store-Remembers fetch now d ip old cache safe late h d' ip' safe' =
    elim (Bool-cases (equal (key_of d ip) (key_of d' ip'))) [
      | inr other ↦
          subst
            (λ x.
              (x ≡ lookup (key_of d' ip') old)
              ⊎ (Outdated now (key_of d' ip') old
                  × (x ≡ some (record { value = answered (fetch d'); checked = now }))))
            (sym (lookup-store_other (key_of d ip) (key_of d' ip') _ cache other)) (h d' ip' safe')
      | inl same ↦
          let key : key_of d ip ≡ key_of d' ip' = (equal_iff _ _).0 same in
          let device : d ≡ d' = key_of-device d d' ip ip' safe safe' key in
          inr (
            subst (λ k. Outdated now k old) key late,
            lookup-store_same (key_of d ip) (key_of d' ip') _ cache same
                ∙ ap (λ x. some (record { value = answered (fetch x); checked = now })) device,
          )
    ]

pub before-Outdated :
    (fetch : Bytes → Option Bytes) (now : ℕ) (old cache : Table PublicIpEntry) (d ip : Bytes)
    → safe_interface d ≡ true
    → Remembers fetch now old cache
    → Outdated now (key_of d ip) cache
    → Outdated now (key_of d ip) old
before-Outdated fetch now old cache d ip safe k late = elim (k d ip safe) [
  | inl same ↦ same-Outdated now (key_of d ip) old cache same late
  | inr (before, there) ↦ before
]
