-- ===== src/Status/Avahi/Coverage.antt =====
-- What an Avahi must reflect to be eligible.
use yachtsense_link_emulator.Common.{
  true, false, not, ◌&&◌, ◌||◌, List, [], ◌∷◌, Option, none, some, ltb, ◌==◌, length, All, ◌≡◌, ◌≢◌,
  refl, arith, Bool-cases, Option-cases, inl, inr, ◌⊎◌,
}
use yachtsense_link_emulator.Common.Bytes.{Bytes, codes, equal}
use yachtsense_link_emulator.Config.Interfaces.{Resolved}
use yachtsense_link_emulator.Status.Avahi.{
  AvahiInfo, contains, uncovered, at_key, comma_list, parse_ini, flag, first_read, search_paths,
  avahi_from, avahi_of, inspect_avahi,
}

-- An interface that a configuration with these lists serves
pub record IsCovered (allow deny : List Bytes) (n : Bytes) : Type 0 where
  pub named : n ≢ []
  pub not_denied : contains deny n ≡ false
  pub allowed : (allow ≡ []) ⊎ (contains allow n ≡ true)

IsCovered-one :
    (allow deny : List Bytes) (n : Bytes)
    → (length n == 0) ≡ false
    → (contains deny n || (ltb 0 (length allow) && not (contains allow n))) ≡ false
    → IsCovered allow deny n
IsCovered-one allow deny n named fits = elim (Bool-cases (contains deny n)) [
  | inl bad ↦ absurd (cc (rw bad at fits))
  | inr fine ↦ record {
    named = λ e. absurd (cc (rw e at named));
    not_denied = fine;
    allowed = permitted allow (rw fine at fits);
  }
]
  where
    permitted :
        (l : List Bytes)
        → (ltb 0 (length l) && not (contains l n)) ≡ false
        → (l ≡ []) ⊎ (contains l n ≡ true)
    permitted [] h = inl refl
    permitted (x ∷ l) h = elim (Bool-cases (contains (x ∷ l) n)) [
      | inl found ↦ inr found
      | inr missing ↦ absurd (ground (arith, missing, h))
    ]

uncovered-none :
    (allow deny ns : List Bytes) → uncovered allow deny ns ≡ none → All (IsCovered allow deny) ns
unfolding uncovered
uncovered-none allow deny [] h = tt
uncovered-none allow deny (n ∷ ns) h = elim (Bool-cases (length n == 0)) [
  | inl bad ↦ absurd (cc (rw bad at h))
  | inr named ↦
      elim (Bool-cases (contains deny n || (ltb 0 (length allow) && not (contains allow n)))) [
        | inl bad ↦ absurd (cc (rw (named, bad) at h))
        | inr fits ↦ (
          IsCovered-one allow deny n named fits,
          uncovered-none allow deny ns (rw (named, fits) at h),
        )
      ]
]

-- An eligible Avahi runs, reflects, and serves the RayNet interface and every app interface.
pub record IsEligible (r : Resolved) (a : AvahiInfo) : Type 0 where
  pub running : a.running ≡ true
  pub reflector : a.reflector ≡ true
  pub known : a.unknown ≡ false
  pub covered : All (IsCovered a.allow a.deny) (r.raynet ∷ r.apps)

pub avahi_from-IsEligible :
    (unicode_lower : Bytes → Bytes) (content : Bytes) (r : Resolved)
    → (avahi_from unicode_lower content r).eligible ≡ true
    → IsEligible r (avahi_from unicode_lower content r)
unfolding avahi_from
avahi_from-IsEligible unicode_lower content r h =
    let v = parse_ini content in
    let allow = comma_list (at_key v (codes "server.allow-interfaces")) in
    let deny = comma_list (at_key v (codes "server.deny-interfaces")) in
    elim (Bool-cases (flag unicode_lower (at_key v (codes "reflector.enable-reflector")))) [
      | inr off ↦ absurd (cc (rw off at h))
      | inl on ↦ elim (Bool-cases (equal (at_key v (codes "server.use-ipv4")) (codes "no"))) [
        | inl ipv6 ↦ absurd (cc (rw (on, ipv6) at h))
        | inr ipv4 ↦ elim (Option-cases (uncovered allow deny (r.raynet ∷ r.apps))) [
          | inr (reason, missing) ↦ absurd (cc (rw (on, ipv4, missing) at h))
          | inl all ↦ elim (Bool-cases (equal (at_key v (codes "reflector.reflect-filters")) [])) [
            | inr filtered ↦ absurd (cc (rw (on, ipv4, all, filtered) at h))
            | inl free ↦
                rw (on, ipv4, all, free)
                  (record {
                    running = refl;
                    reflector = on;
                    known = refl;
                    covered = uncovered-none allow deny (r.raynet ∷ r.apps) all;
                  })
          ]
        ]
      ]
    ]

avahi_of-IsEligible :
    (unicode_lower : Bytes → Bytes) (r : Resolved) (o : Option Bytes)
    → (avahi_of unicode_lower r o).eligible ≡ true
    → IsEligible r (avahi_of unicode_lower r o)
avahi_of-IsEligible unicode_lower r none h = absurd (cc)
avahi_of-IsEligible unicode_lower r (some content) h =
    avahi_from-IsEligible unicode_lower content r h

-- So it is of the Avahi that `inspectAvahi` finds.
pub inspect_avahi-IsEligible :
    (unicode_lower : Bytes → Bytes) (read : Bytes → Option Bytes) (prefix : Bytes)
    (pids : List Bytes) (r : Resolved)
    → (inspect_avahi unicode_lower read prefix pids r).eligible ≡ true
    → IsEligible r (inspect_avahi unicode_lower read prefix pids r)
unfolding inspect_avahi
inspect_avahi-IsEligible unicode_lower read prefix [] r h = absurd (cc)
inspect_avahi-IsEligible unicode_lower read prefix (cmdline ∷ others) r h =
    avahi_of-IsEligible unicode_lower r (first_read read (search_paths prefix (cmdline ∷ others))) h
