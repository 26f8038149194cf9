-- ===== src/Actions/Worker/Readiness.antt =====
-- What a run of the worker shows of the service.
use yachtsense_link_emulator.Common.{
  ℕ, zero, suc, ◌+◌, ◌*◌, ◌≤◌, Bool, true, none, some, ltb, leb, leb→le, subst, ◌==◌, ◌≡◌, ◌≢◌,
  refl, arith, Bool-cases, inl, inr,
}
use yachtsense_link_emulator.Actions.Worker.{
  ServiceSettings, Reading, is_ready, wait_ready, wait_stopped, next_stable,
}

-- Each reading of a run of `n` readings that ends before the `k`-th is ready, and of the process.
abbrev pub ReadyRun : (ℕ → Bool) → (ℕ → Reading) → ℕ → ℕ → ℕ → Type 0
ReadyRun ready reading k zero pid = Unit {0}
ReadyRun ready reading zero (suc n) pid = ⊥
ReadyRun ready reading (suc k) (suc n) pid =
    (ready k ≡ true) × ((reading k).pid ≡ pid) × ReadyRun ready reading k n pid

-- Three readings in a row are ready, and of one process.
pub record IsStable (ready : ℕ → Bool) (reading : ℕ → Reading) : Type 0 where
  pub last : ℕ
  pub pid : ℕ
  pub run : ReadyRun ready reading last 3 pid

same_pid : (a b : ℕ) → (a == b) ≡ true → a ≡ b
same_pid a b h = ground arith

shorten :
    (ready : ℕ → Bool) (reading : ℕ → Reading) (k n pid : ℕ)
    → 3 ≤ n
    → ReadyRun ready reading k n pid
    → ReadyRun ready reading k 3 pid
shorten ready reading (suc (suc (suc k))) (suc (suc (suc n))) pid h (a, b, (c, d, (e, f, g))) =
    (a, b, (c, d, (e, f, tt)))
shorten ready reading k zero pid h r = absurd (omega arith)
shorten ready reading k (suc zero) pid h r = absurd (omega arith)
shorten ready reading k (suc (suc zero)) pid h r = absurd (omega arith)
shorten ready reading zero (suc (suc (suc n))) pid h r = absurd r
shorten ready reading (suc zero) (suc (suc (suc n))) pid h r = absurd r.2
shorten ready reading (suc (suc zero)) (suc (suc (suc n))) pid h (a, b, r) = absurd r.2

longer :
    (ready : ℕ → Bool) (reading : ℕ → Reading) (k n pid : ℕ)
    → ready k ≡ true
    → ReadyRun ready reading k n pid
    → ReadyRun ready reading (suc k) (next_stable pid n (reading k).pid) (reading k).pid
longer ready reading k n pid now before = elim (Bool-cases (pid == (reading k).pid)) [
  | inl same ↦
      rw same
        (now, refl, subst (ReadyRun ready reading k n) (same_pid pid (reading k).pid same) before)
  | inr other ↦ rw other (now, refl, tt)
]

-- The wait ends well only behind three readings in a row that are ready and of one process.
pub wait_ready-IsStable :
    (c : ServiceSettings) (reading : ℕ → Reading) (clock : ℕ → ℕ) (fuel k stable pid : ℕ)
    → ReadyRun (λ i. is_ready c (reading i)) reading k stable pid
    → wait_ready is_ready c reading clock fuel k stable pid ≡ some true
    → IsStable (λ i. is_ready c (reading i)) reading
unfolding wait_ready
wait_ready-IsStable c reading clock zero k stable pid r h = absurd (cc)
wait_ready-IsStable c reading clock (suc fuel) k stable pid r h =
    elim (Bool-cases (ltb (clock k) 15000)) [
      | inr late ↦ absurd (cc (rw late at h))
      | inl early ↦ elim (Bool-cases (is_ready c (reading k))) [
        | inr idle ↦
            wait_ready-IsStable c reading clock fuel (suc k) 0 pid tt (rw (early, idle) at h)
        | inl now ↦
            let n = next_stable pid stable (reading k).pid in
            let run = longer (λ i. is_ready c (reading i)) reading k stable pid now r in
            elim (Bool-cases (leb 3 n)) [
              | inl long ↦ record {
                last = suc k;
                pid = (reading k).pid;
                run =
                    shorten (λ i. is_ready c (reading i)) reading (suc k) n (reading k).pid
                      (leb→le 3 n long) run;
              }
              | inr short ↦
                  wait_ready-IsStable c reading clock fuel (suc k) n (reading k).pid run
                    (rw (early, now, short) at h)
            ]
      ]
    ]

-- A clock that advances by at least `step` between two readings
abbrev pub Advances : ℕ → (ℕ → ℕ) → Type 0
Advances step clock = (k : ℕ) → clock k + step ≤ clock (suc k)

clock_least : (step : ℕ) (clock : ℕ → ℕ) → Advances step clock → (k : ℕ) → k * step ≤ clock k
clock_least step clock h zero = omega arith
clock_least step clock h (suc k) = ground (arith, h k, clock_least step clock h k)

pub wait_stopped-ends :
    (alive : ℕ → Bool) (clock : ℕ → ℕ)
    → Advances 100 clock
    → (fuel k : ℕ) → 72 ≤ fuel + k
    → 1 ≤ fuel
    → wait_stopped alive clock fuel k ≢ none
unfolding wait_stopped
wait_stopped-ends alive clock h zero k enough some_fuel = absurd (omega arith)
wait_stopped-ends alive clock h (suc fuel) k enough some_fuel = elim (Bool-cases (alive k)) [
  | inr gone ↦ rw gone (λ e. cc)
  | inl runs ↦ elim (Bool-cases (ltb 7000 (clock k))) [
    | inl late ↦ rw (runs, late) (λ e. cc)
    | inr early ↦
        rw (runs, early)
          (wait_stopped-ends alive clock h fuel (suc k) (omega arith)
            (ground (arith, clock_least 100 clock h k, early)))
  ]
]

pub wait_ready-ends :
    (c : ServiceSettings) (reading : ℕ → Reading) (clock : ℕ → ℕ)
    → Advances 1000 clock
    → (fuel k stable pid : ℕ) → 16 ≤ fuel + k
    → 1 ≤ fuel
    → wait_ready is_ready c reading clock fuel k stable pid ≢ none
unfolding wait_ready
wait_ready-ends c reading clock h zero k stable pid enough some_fuel = absurd (omega arith)
wait_ready-ends c reading clock h (suc fuel) k stable pid enough some_fuel =
    elim (Bool-cases (ltb (clock k) 15000)) [
      | inr late ↦ rw late (λ e. cc)
      | inl early ↦
          let left : 1 ≤ fuel = ground (arith, clock_least 1000 clock h k, early) in
          elim (Bool-cases (is_ready c (reading k))) [
            | inr idle ↦
                rw (early, idle)
                  (wait_ready-ends c reading clock h fuel (suc k) 0 pid (omega arith) left)
            | inl now ↦ elim (Bool-cases (leb 3 (next_stable pid stable (reading k).pid))) [
              | inl long ↦ rw (early, now, long) (λ e. cc)
              | inr short ↦
                  rw (early, now, short)
                    (wait_ready-ends c reading clock h fuel (suc k)
                      (next_stable pid stable (reading k).pid) (reading k).pid (omega arith) left)
            ]
          ]
    ]
