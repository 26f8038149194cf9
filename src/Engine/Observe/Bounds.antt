-- ===== src/Engine/Observe/Bounds.antt =====
-- The sizes of what `observe` (daemon.go) keeps.
use yachtsense_link_emulator.Common.{
  ℕ, zero, suc, ◌+◌, ◌%◌, ◌≤◌, ◌<◌, List, [], ◌∷◌, ltb, length, ◌≡◌, refl, arith, Bool-cases, inl,
  inr,
}
use yachtsense_link_emulator.Common.Bytes.{Bytes}
use yachtsense_link_emulator.Dns.Types.{Env, DnsRecord}
use yachtsense_link_emulator.Engine.Observe.{
  Table, remove_at, shrink, EngineState, bounded, forget, observe_hosts, observe_services, observe,
}

pub length-remove_at :
    {A : Type 0} (i : ℕ) (t : Table A) → i < length t → suc (length (remove_at i t)) ≡ length t
unfolding remove_at
length-remove_at i [] h = absurd (omega arith)
length-remove_at zero (e ∷ t) h = refl
length-remove_at (suc i) (e ∷ t) h = ground (arith, length-remove_at i t)

pub remainder_lt : (a b : ℕ) → 1 ≤ b → a % b < b
remainder_lt a b h = omega arith

length-shrink-le :
    {A : Type 0} (env : Env) (limit fuel : ℕ) (t : Table A)
    → length t ≤ fuel + limit
    → length (shrink env limit fuel t) ≤ limit
unfolding shrink
length-shrink-le env limit zero t h = omega (arith, h)
length-shrink-le env limit (suc fuel) t h = elim (Bool-cases (ltb limit (length t))) [
  | inr small ↦ rw small (ground arith)
  | inl large ↦
      let i = env.first_key (length t) % length t in
      let one_less =
        length-remove_at i t (remainder_lt (env.first_key (length t)) (length t) (ground arith)) in
      rw large (length-shrink-le env limit fuel (remove_at i t) (omega (arith, h, one_less)))
]

bounded-le :
    (env : Env) (s : EngineState)
    → (length (bounded env s).obs ≤ 256) × (length (bounded env s).hosts ≤ 512)
unfolding bounded
bounded-le env s = (
  length-shrink-le env 256 (length s.obs) s.obs (omega arith),
  length-shrink-le env 512 (length s.hosts) s.hosts (omega arith),
)

-- Whatever message the engine reads, afterwards it holds at most 256 services and 512 hosts.
pub observe-le :
    (env : Env) (order : List Bytes → List Bytes) (interface : Bytes) (now : ℕ)
    (rs : List DnsRecord) (s : EngineState)
    → (length (observe env order interface now rs s).obs ≤ 256)
      × (length (observe env order interface now rs s).hosts ≤ 512)
unfolding observe
observe-le env order interface now rs s =
    bounded-le env (observe_hosts env now rs (observe_services env now rs (forget now rs s)))
