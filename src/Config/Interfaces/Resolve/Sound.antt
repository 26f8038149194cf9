-- ===== src/Config/Interfaces/Resolve/Sound.antt =====
-- What `resolve` returns without an error.
use yachtsense_link_emulator.Common.{
  true, false, not, ◌&&◌, List, [], ◌∷◌, Option, none, some, ◌==◌, length, All, ◌≡◌, ◌≢◌, refl, sym,
  subst, ap, ◌∙◌, arith, Bool-cases, Option-cases, inl, inr, ◌⊎◌, if◌then◌else◌,
}
use yachtsense_link_emulator.Common.Bytes.{Bytes, codes, equal, equal_iff}
use yachtsense_link_emulator.Config.Settings.{Settings}
use yachtsense_link_emulator.Config.Interfaces.{
  InterfaceInfo, Resolved, ResolveError, app_no_address, has_text,
}
use yachtsense_link_emulator.Config.Interfaces.Resolve.{
  by_name, usable, raynet_usable, app_error, collect_apps, after_apps, check_apps, bridge_usable,
  only_candidate, candidates, choose_raynet, choose_apps, then_stage, resume, empty_resolved,
  resolve,
}

-- An interface of the snapshot that is up and was read without an error
pub record IsUp (ifs : List InterfaceInfo) (n : Bytes) : Type 0 where
  pub info : InterfaceInfo
  pub listed : by_name ifs n ≡ some info
  pub up : info.up ≡ true
  pub read : info.read_error ≡ []

-- An interface that the apps can use: up, and with an address unless it is the RayNet interface
pub record IsApp (ifs : List InterfaceInfo) (raynet n : Bytes) : Type 0 where
  pub info : InterfaceInfo
  pub listed : by_name ifs n ≡ some info
  pub up : info.up ≡ true
  pub read : info.read_error ≡ []
  pub addressed : (info.addresses ≢ []) ⊎ (n ≡ raynet)

-- No text stands twice.
abbrev pub Distinct : List Bytes → Type 0
Distinct [] = Unit {0}
Distinct (n ∷ ns) = All (λ m. n ≢ m) ns × Distinct ns

-- The result of `resolve` where it succeeds
pub record IsResolved (ifs : List InterfaceInfo) (r : Resolved) : Type 0 where
  pub raynet_up : IsUp ifs r.raynet
  pub some_app : r.apps ≢ []
  pub each_app : All (IsApp ifs r.raynet) r.apps
  pub once : Distinct r.apps

empty_text : (s : Bytes) → (length s == 0) ≡ true → s ≡ []
empty_text [] h = refl
empty_text (c ∷ s) h = absurd (ground arith)

usable-IsUp : (ifs : List InterfaceInfo) (n : Bytes) → usable (by_name ifs n) ≡ true → IsUp ifs n
usable-IsUp ifs n h = elim (Option-cases (by_name ifs n)) [
  | inl missing ↦ absurd (cc (rw missing at h))
  | inr (i, found) ↦ elim (Bool-cases i.up) [
    | inr down ↦ absurd (cc (rw (found, down) at h))
    | inl up ↦ record {
      info = i;
      listed = found;
      up = up;
      read = empty_text i.read_error (rw (found, up) at h);
    }
  ]
]

addressed :
    (i : InterfaceInfo) (raynet n : Bytes)
    → (if length i.addresses == 0 && not (equal n raynet) then some (app_no_address n) else none)
      ≡ none
    → (i.addresses ≢ []) ⊎ (n ≡ raynet)
addressed i raynet n h = elim (Bool-cases (equal n raynet)) [
  | inl same ↦ inr ((equal_iff n raynet).0 same)
  | inr other ↦ inl (λ e. absurd (cc (rw (other, e) at h)))
]

app_error-none :
    (ifs : List InterfaceInfo) (raynet n : Bytes)
    → app_error ifs raynet n ≡ none
    → IsApp ifs raynet n
unfolding app_error
app_error-none ifs raynet n h = elim (Bool-cases (usable (by_name ifs n))) [
  | inr bad ↦ absurd (cc (rw bad at h))
  | inl good ↦
      let u = usable-IsUp ifs n good in
      record {
        info = u.info;
        listed = u.listed;
        up = u.up;
        read = u.read;
        addressed = addressed u.info raynet n (rw (good, u.listed) at h);
      }
]

-- Neither seen before nor
abbrev Unseen : List Bytes → Bytes → Type 0
Unseen seen m = has_text seen m ≡ false

Unseen-tail : (seen : List Bytes) (n m : Bytes) → Unseen (n ∷ seen) m → (n ≢ m) × Unseen seen m
unfolding has_text
Unseen-tail seen n m h = elim (Bool-cases (equal n m)) [
  | inl same ↦ absurd (cc (rw same at h))
  | inr other ↦ ((λ e. absurd (cc ((equal_iff n m).1 e))), rw other at h)
]

Unseen-tails :
    (seen : List Bytes) (n : Bytes) (ms : List Bytes)
    → All (Unseen (n ∷ seen)) ms
    → All (λ m. n ≢ m) ms × All (Unseen seen) ms
Unseen-tails seen n [] h = (tt, tt)
Unseen-tails seen n (m ∷ ms) (h, hs) =
    let (x, y) = Unseen-tail seen n m h in
    let (xs, ys) = Unseen-tails seen n ms hs in ((x, xs), (y, ys))

-- What the loop collects where it meets no error
record Collected (ifs : List InterfaceInfo) (raynet : Bytes) (seen apps : List Bytes) : Type 0 where
  each : All (IsApp ifs raynet) apps
  unseen : All (Unseen seen) apps
  once : Distinct apps

collect_apps-Collected :
    (ifs : List InterfaceInfo) (raynet : Bytes) (seen ns : List Bytes)
    → (collect_apps ifs raynet seen ns).1 ≡ none
    → Collected ifs raynet seen (collect_apps ifs raynet seen ns).0
unfolding collect_apps
collect_apps-Collected ifs raynet seen [] h = record { each = tt; unseen = tt; once = tt }
collect_apps-Collected ifs raynet seen (n ∷ ns) h = elim (Bool-cases (has_text seen n)) [
  | inl again ↦ rw again (collect_apps-Collected ifs raynet seen ns (rw again at h))
  | inr new ↦ elim (Option-cases (app_error ifs raynet n)) [
    | inr (e, bad) ↦ absurd (cc (rw (new, bad) at h))
    | inl fine ↦
        let rest = collect_apps-Collected ifs raynet (n ∷ seen) ns (rw (new, fine) at h) in
        let (other, before) =
          Unseen-tails seen n (collect_apps ifs raynet (n ∷ seen) ns).0 rest.unseen in
        rw (new, fine)
          (record {
            each = (app_error-none ifs raynet n fine, rest.each);
            unseen = (new, before);
            once = (other, rest.once);
          })
  ]
]

after_apps-IsResolved :
    (ifs : List InterfaceInfo) (r : Resolved) (seen : List Bytes)
    (found : List Bytes × Option ResolveError)
    → IsUp ifs r.raynet
    → (found.1 ≡ none → Collected ifs r.raynet seen found.0)
    → (after_apps r found).failed ≡ none
    → IsResolved ifs (after_apps r found)
after_apps-IsResolved ifs r seen (apps, some e) up h k = absurd (cc)
after_apps-IsResolved ifs r seen ([], none) up h k = absurd (cc)
after_apps-IsResolved ifs r seen (n ∷ apps, none) up h k =
    let good = h refl in
    record { raynet_up = up; some_app = λ e. cc; each_app = good.each; once = good.once }

then_stage-ok :
    (r : Resolved) (f : Resolved → Resolved)
    → (then_stage r f).failed ≡ none
    → (r.failed ≡ none) × ((f r).failed ≡ none) × (then_stage r f ≡ f r)
then_stage-ok r f h = resumed r.failed refl h
  where
    resumed :
        (o : Option ResolveError)
        → r.failed ≡ o
        → (resume o r (f r)).failed ≡ none
        → (r.failed ≡ none) × ((f r).failed ≡ none) × (resume o r (f r) ≡ f r)
    resumed none e k = (e, k, refl)
    resumed (some x) e k = absurd (cc)

raynet_usable-IsUp :
    (ifs : List InterfaceInfo) (r : Resolved)
    → (raynet_usable ifs r).failed ≡ none
    → (raynet_usable ifs r ≡ r) × IsUp ifs r.raynet
unfolding raynet_usable
raynet_usable-IsUp ifs r h = elim (Bool-cases (usable (by_name ifs r.raynet))) [
  | inl up ↦ (rw up, usable-IsUp ifs r.raynet up)
  | inr down ↦ absurd (cc (rw down at h))
]

-- The choice of the apps leaves the RayNet interface as it is.
choose_apps-raynet :
    (c : Settings) (ifs : List InterfaceInfo) (r : Resolved)
    → (choose_apps c ifs r).raynet ≡ r.raynet
unfolding choose_apps
choose_apps-raynet c ifs r = elim (Bool-cases (equal c.app_mode (codes "manual"))) [
  | inl manual ↦ rw manual
  | inr auto ↦ elim (Bool-cases (bridge_usable r.raynet (by_name ifs (codes "br-lan")))) [
    | inl bridge ↦ rw (auto, bridge)
    | inr other ↦ rw (auto, other) (only (candidates ifs))
  ]
]
  where
    only : (ns : List Bytes) → (only_candidate ns r).raynet ≡ r.raynet
    only [] = refl
    only (n ∷ []) = refl
    only (n ∷ m ∷ ns) = refl

-- Without an error `resolve` gives a RayNet interface of the snapshot that is up, and at least one
-- app interface; each app interface is up, has an IPv4 address unless it is the RayNet interface, and
-- stands once.
pub resolve-IsResolved :
    (c : Settings) (ifs : List InterfaceInfo)
    → (resolve c ifs).failed ≡ none
    → IsResolved ifs (resolve c ifs)
unfolding resolve check_apps
resolve-IsResolved c ifs h =
    let chosen = choose_raynet c ifs empty_resolved in
    let up = then_stage chosen (raynet_usable ifs) in
    let with_apps = then_stage up (choose_apps c ifs) in
    let (h3, k3, e3) = then_stage-ok with_apps (check_apps ifs) h in
    let (h2, k2, e2) = then_stage-ok up (choose_apps c ifs) h3 in
    let (h1, k1, e1) = then_stage-ok chosen (raynet_usable ifs) h2 in
    let (same, raynet_up) = raynet_usable-IsUp ifs chosen k1 in
    let kept : with_apps.raynet ≡ chosen.raynet =
      rw e2 (choose_apps-raynet c ifs up ∙ ap (λ r. r.raynet) (e1 ∙ same)) in
    subst (IsResolved ifs) (sym e3) (
      after_apps-IsResolved ifs with_apps [] (collect_apps ifs with_apps.raynet [] with_apps.apps)
        (subst (IsUp ifs) (sym kept) raynet_up)
        (collect_apps-Collected ifs with_apps.raynet [] with_apps.apps) k3)
