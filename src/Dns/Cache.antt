-- ===== src/Dns/Cache.antt =====
-- `nameCache`: the names learned from the MFD, each with the time at which it is forgotten. Times
-- are nanoseconds. A call reads the clock once, and that reading is its argument `now`; the mutex
-- makes each call one step.
pub mod Laws
use yachtsense_link_emulator.Common.{
  ℕ, ◌+◌, ◌*◌, ◌%◌, Bool, true, false, List, [], ◌∷◌, Option, none, some, ltb, leb, ◌==◌,
  if◌then◌else◌, length, zero, suc,
}
use yachtsense_link_emulator.Common.Bytes.{Bytes, equal}
use yachtsense_link_emulator.Dns.Types.{Env}
use yachtsense_link_emulator.Dns.Name.{normalize_dns_name}

-- `time.Second`
abbrev pub second : ℕ
second = 1000000000

-- `expires map[string]time.Time`, each key once
abbrev pub NameCache : Type 0
NameCache = List (Bytes × ℕ)

-- `expires[n]`
unfoldable pub find : Bytes → NameCache → Option ℕ
find n [] = none
find n ((k, t) ∷ c) = if equal k n then some t else find n c

-- `delete(expires, n)`
unfoldable pub delete : Bytes → NameCache → NameCache
delete n [] = []
delete n ((k, t) ∷ c) = if equal k n then delete n c else (k, t) ∷ delete n c

-- `expires[n] = t`
unfoldable pub put : Bytes → ℕ → NameCache → NameCache
unfolding delete
put n t c = (n, t) ∷ delete n c

-- `for k, v := range expires { if now.After(v) { delete(expires, k) } }`
unfoldable pub drop_expired : ℕ → NameCache → NameCache
drop_expired now [] = []
drop_expired now ((k, t) ∷ c) =
    if ltb t now then drop_expired now c else (k, t) ∷ drop_expired now c

-- `for k := range expires { delete(expires, k); break }`, where the range starts at the i-th key
unfoldable pub drop_at : ℕ → NameCache → NameCache
drop_at i [] = []
drop_at zero (e ∷ c) = c
drop_at (suc i) (e ∷ c) = e ∷ drop_at i c

-- The branch `len(expires) >= 1024` of `addTTL`
unfoldable pub make_room : Env → ℕ → NameCache → NameCache
unfolding drop_expired drop_at
make_room env now c =
    let live = drop_expired now c in
    if leb 1024 (length c)
    then (if leb 1024 (length live)
        then drop_at (env.first_key (length live) % length live) live
        else live)
    else c

abbrev pub clamp_ttl : ℕ → ℕ
clamp_ttl ttl = if ltb 900 ttl then 900 else ttl

-- `(*nameCache).addTTL`
unfoldable pub add_ttl : Env → ℕ → Bytes → ℕ → NameCache → NameCache
unfolding make_room put delete
add_ttl env now name ttl c =
    let n = normalize_dns_name env name in
    if equal n []
    then c
    else if clamp_ttl ttl == 0
    then delete n c
    else put n (now + clamp_ttl ttl * second) (make_room env now c)

-- `(*nameCache).add`
unfoldable pub add : Env → ℕ → Bytes → NameCache → NameCache
unfolding add_ttl
add env now name c = add_ttl env now name 120 c

-- What `has` does on the entry that it found
unfoldable pub has_entry : ℕ → Bytes → Option ℕ → NameCache → Bool × NameCache
has_entry now n none c = (false, c)
has_entry now n (some t) c = if ltb t now then (false, delete n c) else (true, c)

-- `(*nameCache).has`: an entry that has run out is deleted.
unfoldable pub has : Env → ℕ → Bytes → NameCache → Bool × NameCache
unfolding has_entry
has env now name c = let n = normalize_dns_name env name in has_entry now n (find n c) c
