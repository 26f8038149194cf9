-- ===== src/Dns/Cache/Laws.antt =====
-- `add`, `addTTL` and `has` of `nameCache` (dns.go), one behind the other.
use yachtsense_link_emulator.Common.{
  ℕ, zero, suc, ◌+◌, ◌*◌, ◌%◌, ◌≤◌, ◌<◌, true, false, [], ◌∷◌, none, ◌≡◌, ◌≢◌, refl, sym, ◌∙◌, leb,
  if◌then◌else◌, length, arith,
}
use yachtsense_link_emulator.Common.Bytes.{Bytes, equal, equal_iff}
use yachtsense_link_emulator.Dns.Types.{Env}
use yachtsense_link_emulator.Dns.Name.{normalize_dns_name}
use yachtsense_link_emulator.Dns.Cache.{
  second, NameCache, find, delete, put, drop_expired, drop_at, make_room, clamp_ttl, add_ttl, has,
}

pub length-delete-le : (n : Bytes) (c : NameCache) → length (delete n c) ≤ length c
unfolding delete
length-delete-le n [] = omega arith
length-delete-le n ((k, t) ∷ c) = ground (arith, length-delete-le n c)

length-drop_expired-le : (now : ℕ) (c : NameCache) → length (drop_expired now c) ≤ length c
unfolding drop_expired
length-drop_expired-le now [] = omega arith
length-drop_expired-le now ((k, t) ∷ c) = ground (arith, length-drop_expired-le now c)

length-drop_at : (i : ℕ) (c : NameCache) → i < length c → length (drop_at i c) + 1 ≡ length c
unfolding drop_at
length-drop_at i [] h = elim h [ ]
length-drop_at zero (e ∷ c) h = omega arith
length-drop_at (suc i) (e ∷ c) h = omega (arith, length-drop_at i c)

-- Before a new name goes in there is room for it.
length-make_room :
    (env : Env) (now : ℕ) (c : NameCache) → length c ≤ 1024 → length (make_room env now c) ≤ 1023
unfolding make_room
length-make_room env now c h =
    let live = drop_expired now c in
    let i = env.first_key (length live) % length live in
    ground (arith, length-drop_expired-le now c, length-drop_at i live)

-- The cache never holds more than 1024 names.
pub length-add_ttl-le :
    (env : Env) (now : ℕ) (name : Bytes) (ttl : ℕ) (c : NameCache)
    → length c ≤ 1024
    → length (add_ttl env now name ttl c) ≤ 1024
unfolding add_ttl
length-add_ttl-le env now name ttl c h =
    let n = normalize_dns_name env name in
    ground (
      arith,
      length-delete-le n c,
      length-make_room env now c h,
      length-delete-le n (make_room env now c),
    )

pub find-delete_self : (n : Bytes) (c : NameCache) → find n (delete n c) ≡ none
unfolding find delete
find-delete_self n [] = refl
find-delete_self n ((k, t) ∷ c) = ground (arith, find-delete_self n c)

pub find-delete :
    (n m : Bytes) (c : NameCache) → find m (delete n c) ≡ (if equal n m then none else find m c)
unfolding find delete
find-delete n m [] = ground arith
find-delete n m ((k, t) ∷ c) =
    ground (arith, find-delete n m c, equal_iff k n, equal_iff n m, equal_iff k m)

equal_refl : (n : Bytes) → equal n n ≡ true
equal_refl n = (equal_iff n n).1 refl

-- A name that is told with a lifetime is known until that time, at most 900 seconds, has passed,
-- and is unknown from then on.
pub has-add_ttl :
    (env : Env) (now later : ℕ) (name : Bytes) (ttl : ℕ) (c : NameCache)
    → normalize_dns_name env name ≢ []
    → 0 < ttl
    → (has env later name (add_ttl env now name ttl c)).0 ≡ leb later (now + clamp_ttl ttl * second)
unfolding has add_ttl find put
has-add_ttl env now later name ttl c ne pos =
    let n = normalize_dns_name env name in ground (arith, equal_iff n [], equal_refl n)

-- A goodbye, a record with lifetime 0, makes the name unknown at once.
pub has-add_ttl_goodbye :
    (env : Env) (now later : ℕ) (name : Bytes) (c : NameCache)
    → normalize_dns_name env name ≢ []
    → (has env later name (add_ttl env now name 0 c)).0 ≡ false
unfolding has add_ttl
has-add_ttl_goodbye env now later name c ne =
    let n = normalize_dns_name env name in ground (arith, equal_iff n [], find-delete_self n c)

-- Looking a name up changes no answer that is given at the same time or later.
pub has-has :
    (env : Env) (now later : ℕ) (name other : Bytes) (c : NameCache)
    → now ≤ later
    → (has env later other (has env now name c).1).0 ≡ (has env later other c).0
unfolding has
has-has env now later name other c h =
    let n = normalize_dns_name env name in
    let m = normalize_dns_name env other in ground (arith, find-delete n m c, equal_iff n m)

-- Two caches that answer alike at one time
abbrev pub Agree : Env → ℕ → NameCache → NameCache → Type 0
Agree env now c d = (m : Bytes) → (has env now m c).0 ≡ (has env now m d).0

pub has-Agree :
    (env : Env) (now : ℕ) (name : Bytes) (c d : NameCache)
    → Agree env now c d
    → Agree env now c (has env now name d).1
has-Agree env now name c d same m = same m ∙ sym (has-has env now now name m d (omega arith))
