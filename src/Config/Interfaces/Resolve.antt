-- ===== src/Config/Interfaces/Resolve.antt =====
-- `resolve`: the RayNet interface and the interfaces of the apps. Each stage carries the result on,
-- as it stands where the Go function returns it beside an error.
pub mod Sound
use yachtsense_link_emulator.Common.{
  ℕ, Bool, true, false, not, ◌&&◌, ◌||◌, List, [], ◌∷◌, ◌++◌, Option, none, some, ◌==◌,
  if◌then◌else◌, length,
}
use yachtsense_link_emulator.Common.Bytes.{Bytes, codes, equal, itoa}
use yachtsense_link_emulator.Common.Int.{ℤ, pos, negsuc}
use yachtsense_link_emulator.Config.Settings.{Settings}
use yachtsense_link_emulator.Config.Interfaces.{
  InterfaceInfo, Resolved, ResolveError, RaynetReason, AppReason, has_ip, any_private, has_text,
  no_reason, existing_address, manual_raynet, address_management, no_app_reason, manual_apps,
  lan_bridge, only_network, address_missing, address_repeated, networks_ambiguous, choose_network,
  raynet_unavailable, raynet_no_address, raynet_down, app_unavailable, app_no_address,
}

-- `by[n]`: the last interface of the name
unfoldable pub by_name : List InterfaceInfo → Bytes → Option InterfaceInfo
unfolding equal
by_name [] n = none
by_name (i ∷ is) n = elim (by_name is n) [
  | some j ↦ some j
  | none ↦ if equal i.name n then some i else none
]

abbrev pub empty_resolved : Resolved
empty_resolved = record {
  raynet = [];
  cidr = [];
  apps = [];
  failed = none;
  raynet_reason = no_reason;
  app_reason = no_app_reason;
}

-- `fail`
abbrev pub fail : Resolved → ResolveError → Resolved
fail r e = record r { failed = some e }

abbrev pub resume : Option ResolveError → Resolved → Resolved → Resolved
resume (some e) r s = r
resume none r s = s

-- Go on where nothing failed.
abbrev pub then_stage : Resolved → (Resolved → Resolved) → Resolved
then_stage r f = resume r.failed r (f r)

unfoldable pub with_address : Bytes → List InterfaceInfo → List InterfaceInfo
unfolding has_ip
with_address ip [] = []
with_address ip (i ∷ is) =
    let rest = with_address ip is in if length (has_ip i.addresses ip) == 0 then rest else i ∷ rest

abbrev signed_text : ℤ → Bytes
signed_text (pos n) = itoa n
signed_text (negsuc n) = b'-' ∷ itoa (ℕ.suc n)

-- The RayNet interface where `RaynetMode` is auto
abbrev only_match : Bytes → List InterfaceInfo → Resolved → Resolved
only_match ip [] r = fail r address_missing
only_match ip (i ∷ []) r = record r {
  raynet = i.name;
  cidr = has_ip i.addresses ip;
  raynet_reason = existing_address;
}
only_match ip (i ∷ j ∷ is) r = fail r address_repeated

-- The RayNet interface that the settings name
abbrev named_raynet : Settings → Option InterfaceInfo → Resolved → Resolved
named_raynet c none r = fail r (raynet_unavailable c.axiom_interface)
named_raynet c (some i) r =
    let cidr = has_ip i.addresses c.ip in
    let found : Resolved = record r {
      raynet = i.name;
      cidr = cidr;
      raynet_reason = manual_raynet;
    } in
    if not (length cidr == 0)
    then found
    else if not c.manage_ip
    then fail found (raynet_no_address i.name)
    else record found {
      cidr = c.ip ++ b'/' ∷ signed_text c.prefix_bits;
      raynet_reason = address_management;
    }

unfoldable pub choose_raynet : Settings → List InterfaceInfo → Resolved → Resolved
unfolding by_name with_address equal
choose_raynet c ifs r =
    if equal c.raynet_mode (codes "auto")
    then only_match c.ip (with_address c.ip ifs) r
    else named_raynet c (by_name ifs c.axiom_interface) r

-- Up and read without an error; `by[n]` of a missing name is not up
abbrev pub usable : Option InterfaceInfo → Bool
usable none = false
usable (some i) = i.up && length i.read_error == 0

unfoldable pub raynet_usable : List InterfaceInfo → Resolved → Resolved
raynet_usable ifs r = if usable (by_name ifs r.raynet) then r else fail r (raynet_down r.raynet)

-- `suitable`
unfoldable pub suitable : InterfaceInfo → Bool
unfolding any_private
suitable i =
    if not i.up || (not (length i.read_error == 0) || i.default_route)
    then false
    else any_private i.addresses

unfoldable pub candidates : List InterfaceInfo → List Bytes
unfolding suitable
candidates [] = []
candidates (i ∷ is) = let rest = candidates is in if suitable i then i.name ∷ rest else rest

abbrev pub only_candidate : List Bytes → Resolved → Resolved
only_candidate (n ∷ []) r = record r { apps = n ∷ []; app_reason = only_network }
only_candidate _ r = fail r networks_ambiguous

abbrev pub bridge_usable : Bytes → Option InterfaceInfo → Bool
bridge_usable raynet none = false
bridge_usable raynet (some i) =
    suitable i || (equal i.name raynet && (i.up && length i.read_error == 0))

unfoldable pub choose_apps : Settings → List InterfaceInfo → Resolved → Resolved
unfolding candidates by_name equal
choose_apps c ifs r =
    if equal c.app_mode (codes "manual")
    then record r { apps = r.apps ++ c.remote_interfaces; app_reason = manual_apps }
    else if bridge_usable r.raynet (by_name ifs (codes "br-lan"))
    then record r { apps = codes "br-lan" ∷ []; app_reason = lan_bridge }
    else only_candidate (candidates ifs) r

-- What is wrong with an app interface
unfoldable pub app_error : List InterfaceInfo → Bytes → Bytes → Option ResolveError
app_error ifs raynet n =
    if not (usable (by_name ifs n)) then some (app_unavailable n) else elim (by_name ifs n) [
      | none ↦ none
      | some i ↦
          if length i.addresses == 0 && not (equal n raynet) then some (app_no_address n) else none
    ]

-- The last loop of `resolve`: the app interfaces in their order, each once, or the first error
unfoldable pub collect_apps :
    List InterfaceInfo → Bytes → List Bytes → List Bytes → List Bytes × Option ResolveError
unfolding app_error has_text
collect_apps ifs raynet seen [] = ([], none)
collect_apps ifs raynet seen (n ∷ ns) =
    let skipped = collect_apps ifs raynet seen ns in
    let (rest, e) = collect_apps ifs raynet (n ∷ seen) ns in
    if has_text seen n
    then skipped
    else elim (app_error ifs raynet n) [ some bad ↦ ([], some bad) | none ↦ (n ∷ rest, e) ]

abbrev after_apps : Resolved → List Bytes × Option ResolveError → Resolved
after_apps r (apps, some e) = fail r e
after_apps r ([], none) = fail (record r { apps = [] }) choose_network
after_apps r (n ∷ apps, none) = record r { apps = n ∷ apps }

unfoldable pub check_apps : List InterfaceInfo → Resolved → Resolved
unfolding collect_apps
check_apps ifs r = after_apps r (collect_apps ifs r.raynet [] r.apps)

-- `resolve`
unfoldable pub resolve : Settings → List InterfaceInfo → Resolved
resolve c ifs =
    let chosen = choose_raynet c ifs empty_resolved in
    let up = then_stage chosen (raynet_usable ifs) in
    let with_apps = then_stage up (choose_apps c ifs) in then_stage with_apps (check_apps ifs)
