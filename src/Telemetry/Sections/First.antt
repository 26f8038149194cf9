-- ===== src/Telemetry/Sections/First.antt =====
-- The policy that `defaultPolicy` (telemetry_wan.go) finds in the sections of mwan3's configuration.
use yachtsense_link_emulator.Common.{
  Bool, true, false, not, ◌&&◌, ◌||◌, List, [], ◌∷◌, ◌++◌, if◌then◌else◌, All, ◌≡◌, ◌≢◌, refl, ap,
  ◌⊎◌, inl, inr, arith, Bool-cases,
}
use yachtsense_link_emulator.Common.Bytes.{Bytes, codes, equal, equal_iff}
use yachtsense_link_emulator.Telemetry.Sections.{
  UciSection, uci_sections, uv, is_default_rule, is_enabled_interface, policy_of, default_policy,
}

-- A rule of the policies that is in force for all IPv4 traffic and names a policy, by its options
pub record IsDefault (s : UciSection) : Type 0 where
  pub rule : s.typ ≡ codes "rule"
  pub enabled : uv s (codes "enabled") ≢ codes "0"
  pub ipv4 : uv s (codes "family") ≢ codes "ipv6"
  pub to_all : (uv s (codes "dest_ip") ≡ []) ⊎ (uv s (codes "dest_ip") ≡ codes "0.0.0.0/0")
  pub from_all : (uv s (codes "src_ip") ≡ []) ⊎ (uv s (codes "src_ip") ≡ codes "0.0.0.0/0")
  pub protocols : (uv s (codes "proto") ≡ []) ⊎ (uv s (codes "proto") ≡ codes "all")
  pub to_ports : uv s (codes "dest_port") ≡ []
  pub from_ports : uv s (codes "src_port") ≡ []
  pub named : uv s (codes "use_policy") ≢ []

is_text_eq : (s t : Bytes) → equal s t ≡ true → s ≡ t
is_text_eq s t h = (equal_iff s t).0 h

is_text_ne : (s t : Bytes) → equal s t ≡ false → s ≢ t
is_text_ne s t h e = absurd (cc ((equal_iff s t).1 e, h))

and-true : (a b : Bool) → (a && b) ≡ true → (a ≡ true) × (b ≡ true)
and-true true b h = (refl, h)
and-true false b h = absurd (cc h)

either_text : (s t u : Bytes) → (equal s t || equal s u) ≡ true → (s ≡ t) ⊎ (s ≡ u)
either_text s t u h = elim (Bool-cases (equal s t)) [
  | inl first ↦ inl (is_text_eq s t first)
  | inr other ↦ inr (is_text_eq s u (rw other at h))
]

either_true : (s t u : Bytes) → (s ≡ t) ⊎ (s ≡ u) → (equal s t || equal s u) ≡ true
either_true s t u (inl e) = rw ((equal_iff s t).1 e) refl
either_true s t u (inr e) = ground (arith, (equal_iff s u).1 e)

neither : (a b : Bool) → not (a || b) ≡ true → (a ≡ false) × (b ≡ false)
neither false false h = (refl, refl)
neither true b h = absurd (cc h)
neither false true h = absurd (cc h)

not-true : (a : Bool) → not a ≡ true → a ≡ false
not-true false h = refl
not-true true h = absurd (cc h)

is_default_rule-IsDefault : (s : UciSection) → is_default_rule s ≡ true → IsDefault s
is_default_rule-IsDefault s h =
    let (rule, h1) = and-true _ _ h in
    let (force, h2) = and-true _ _ h1 in
    let (to_all, h3) = and-true _ _ h2 in
    let (from_all, h4) = and-true _ _ h3 in
    let (protocols, h5) = and-true _ _ h4 in
    let (to_ports, h6) = and-true _ _ h5 in
    let (from_ports, named) = and-true _ _ h6 in
    let (off, ipv6) = neither _ _ force in
    record {
      rule = is_text_eq _ _ rule;
      enabled = is_text_ne _ _ off;
      ipv4 = is_text_ne _ _ ipv6;
      to_all = either_text _ _ _ to_all;
      from_all = either_text _ _ _ from_all;
      protocols = either_text _ _ _ protocols;
      to_ports = is_text_eq _ _ to_ports;
      from_ports = is_text_eq _ _ from_ports;
      named = is_text_ne _ _ (not-true _ named);
    }

text_false : (s t : Bytes) → s ≢ t → equal s t ≡ false
text_false s t h = elim (Bool-cases (equal s t)) [
  | inl same ↦ absurd (h (is_text_eq s t same))
  | inr other ↦ other
]

IsDefault-is_default_rule : (s : UciSection) → IsDefault s → is_default_rule s ≡ true
IsDefault-is_default_rule s h =
    rw
      (
        (equal_iff s.typ (codes "rule")).1 h.rule,
        text_false (uv s (codes "enabled")) (codes "0") h.enabled,
        text_false (uv s (codes "family")) (codes "ipv6") h.ipv4,
        either_true (uv s (codes "dest_ip")) [] (codes "0.0.0.0/0") h.to_all,
        either_true (uv s (codes "src_ip")) [] (codes "0.0.0.0/0") h.from_all,
        either_true (uv s (codes "proto")) [] (codes "all") h.protocols,
        (equal_iff (uv s (codes "dest_port")) []).1 h.to_ports,
        (equal_iff (uv s (codes "src_port")) []).1 h.from_ports,
        text_false (uv s (codes "use_policy")) [] h.named,
      )
      refl

other_rule : (s : UciSection) → is_default_rule s ≡ false → ¬ IsDefault s
other_rule s other h = absurd (cc (other, IsDefault-is_default_rule s h))

-- The policy `p` is that of a rule for all traffic in the file, and no section before it is such a
-- rule.
pub record FirstRule (p : Bytes) (sections : List UciSection) : Type 0 where
  pub before : List UciSection
  pub found : UciSection
  pub after : List UciSection
  pub place : sections ≡ before ++ found ∷ after
  pub others : All (λ s. ¬ IsDefault s) before
  pub default : IsDefault found
  pub policy : p ≡ uv found (codes "use_policy")

FirstRule-behind :
    (p : Bytes) (s : UciSection) (ss : List UciSection)
    → ¬ IsDefault s
    → FirstRule p ss
    → FirstRule p (s ∷ ss)
FirstRule-behind p s ss other h = record {
  before = s ∷ h.before;
  found = h.found;
  after = h.after;
  place = ap (◌∷◌ s) h.place;
  others = (other, h.others);
  default = h.default;
  policy = h.policy;
}

policy_of-FirstRule :
    (ss : List UciSection) (configured : Bool)
    → FirstRule (policy_of ss configured).0 ss
      ⊎ (((policy_of ss configured).0 ≡ []) × All (λ s. ¬ IsDefault s) ss)
unfolding policy_of
policy_of-FirstRule [] configured = inr (refl, tt)
policy_of-FirstRule (s ∷ ss) configured = elim (Bool-cases (is_default_rule s)) [
  | inl found ↦ inl (record {
    before = [];
    found = s;
    after = ss;
    place = refl;
    others = tt;
    default = is_default_rule-IsDefault s found;
    policy = rw found refl;
  })
  | inr other ↦
      elim (policy_of-FirstRule ss (if is_enabled_interface s then true else configured)) [
        | inl later ↦ inl (FirstRule-behind _ s ss (other_rule s other) (rw other later))
        | inr (nothing, no_rule) ↦ inr (rw other nothing, (other_rule s other, no_rule))
      ]
]

-- Whatever the file holds, either the policy is that of the first rule which is not switched off, is
-- not for IPv6, takes all sources, destinations, protocols and ports, and names a policy, or it is
-- empty and no section is such a rule.
pub default_policy-FirstRule :
    (data_read : Bytes)
    → FirstRule (default_policy data_read).0 (uci_sections data_read)
      ⊎ (((default_policy data_read).0 ≡ []) × All (λ s. ¬ IsDefault s) (uci_sections data_read))
unfolding default_policy
default_policy-FirstRule data_read = policy_of-FirstRule (uci_sections data_read) false
