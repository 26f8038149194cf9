-- ===== src/Telemetry/PublicIp/Keys.antt =====
-- The keys under which `refreshPublicIPs` (dashboard.go) remembers the answers: the device and the
-- address of a link.
use yachtsense_link_emulator.Common.{
  ℕ, true, false, [], ◌∷◌, ◌++◌, some, All, ◌≡◌, ◌≢◌, refl, arith, Bool-cases, inl, inr,
}
use yachtsense_link_emulator.Common.Bytes.{Bytes, equal, equal_iff}
use yachtsense_link_emulator.Config.Text.{safe_interface}
use yachtsense_link_emulator.Config.Settings.Checks.{IsNameByte, safe_interface-IsSafe}
use yachtsense_link_emulator.Engine.Observe.{Table, lookup, remove, store}

abbrev pub key_of : Bytes → Bytes → Bytes
key_of device ip = device ++ b'/' ∷ ip

slash-IsNameByte : (c : ℕ) → IsNameByte c → c ≢ 47
slash-IsNameByte c h e = ground arith

same_device :
    (d d' ip ip' : Bytes)
    → All IsNameByte d
    → All IsNameByte d'
    → key_of d ip ≡ key_of d' ip'
    → d ≡ d'
same_device [] [] ip ip' h h' e = refl
same_device [] (c ∷ d') ip ip' h h' e = absurd (slash-IsNameByte c h'.0 (cc e))
same_device (c ∷ d) [] ip ip' h h' e = absurd (slash-IsNameByte c h.0 (cc e))
same_device (c ∷ d) (c' ∷ d') ip ip' h h' e =
    let rest : d ≡ d' = same_device d d' ip ip' h.1 h'.1 (cc e) in let first : c ≡ c' = cc e in cc

-- Two links on safe devices have one key only if they are on one device.
pub key_of-device :
    (d d' ip ip' : Bytes)
    → safe_interface d ≡ true
    → safe_interface d' ≡ true
    → key_of d ip ≡ key_of d' ip'
    → d ≡ d'
key_of-device d d' ip ip' h h' e =
    same_device d d' ip ip' (safe_interface-IsSafe d h).bytes (safe_interface-IsSafe d' h').bytes e

differ : (j k n : Bytes) → equal j k ≡ true → equal k n ≡ false → equal j n ≡ false
differ j k n same other = rw ((equal_iff j k).0 same) other

lookup-remove :
    {A : Type 0} (k n : Bytes) (t : Table A)
    → equal k n ≡ false
    → lookup n (remove k t) ≡ lookup n t
unfolding lookup remove
lookup-remove k n [] other = refl
lookup-remove k n ((j, a) ∷ t) other = elim (Bool-cases (equal j k)) [
  | inl same ↦ rw (same, differ j k n same other) (lookup-remove k n t other)
  | inr kept ↦ elim (Bool-cases (equal j n)) [
    | inl found ↦ rw (kept, found) refl
    | inr passed ↦ rw (kept, passed) (lookup-remove k n t other)
  ]
]

pub lookup-store_other :
    {A : Type 0} (k n : Bytes) (a : A) (t : Table A)
    → equal k n ≡ false
    → lookup n (store k a t) ≡ lookup n t
unfolding lookup store
lookup-store_other k n a t other = rw other (lookup-remove k n t other)

pub lookup-store_same :
    {A : Type 0} (k n : Bytes) (a : A) (t : Table A)
    → equal k n ≡ true
    → lookup n (store k a t) ≡ some a
unfolding lookup store
lookup-store_same k n a t same = rw same refl
