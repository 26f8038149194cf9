-- ===== src/Telemetry/Sections.antt =====
-- `uciSections` of telemetry_sources.go, which reads any file of the router's configuration, and
-- `defaultPolicy` of telemetry_wan.go, which finds the policy of mwan3 that all traffic follows.
pub mod First
use Prim.Native.String.{String}
use yachtsense_link_emulator.Common.{
  Bool, true, false, not, ◌&&◌, ◌||◌, List, [], ◌∷◌, ◌++◌, Option, none, some, if◌then◌else◌, ok,
  err,
}
use yachtsense_link_emulator.Common.Bytes.{Bytes, codes, equal, split}
use yachtsense_link_emulator.Config.Words.{ConfigResult, words}
use yachtsense_link_emulator.Config.Uci.{Values, find_values, set_values, or_empty}

-- `uciSection`
pub record UciSection : Type 0 where
  pub typ : Bytes
  pub name : Bytes
  pub values : Values

abbrev pub new_section : List Bytes → UciSection
new_section (_ ∷ t ∷ n ∷ _) = record { typ = t; name = n; values = [] }
new_section (_ ∷ t ∷ []) = record { typ = t; name = []; values = [] }
new_section _ = record { typ = []; name = []; values = [] }

-- An option of the section, as `m[w[1]]`
abbrev pub set_option : List Bytes → UciSection → UciSection
set_option (w ∷ k ∷ a ∷ []) s =
    if equal w (codes "option")
    then record s { values = set_values k (a ∷ []) s.values }
    else record s { values = set_values k (or_empty (find_values k s.values) ++ a ∷ []) s.values }
set_option _ s = s

abbrev pub is_option : List Bytes → Bool
is_option (w ∷ k ∷ a ∷ []) = equal w (codes "option") || equal w (codes "list")
is_option _ = false

abbrev pub is_config : List Bytes → Bool
is_config (w ∷ t ∷ _) = equal w (codes "config")
is_config _ = false

-- The sections that are complete, and the one that is open
abbrev pub Reading : Type 0
Reading = List UciSection × Option UciSection

abbrev pub closed : Reading → List UciSection
closed (out, none) = out
closed (out, some s) = out ++ s ∷ []

abbrev pub with_option : List Bytes → Reading → Reading
with_option w (out, none) = (out, none)
with_option w (out, some s) = (out, some (set_option w s))

-- A line's words; a line that cannot be read is skipped.
abbrev pub section_step : ConfigResult (List Bytes) → Reading → Reading
section_step (err e) r = r
section_step (ok w) r =
    if is_config w
    then (closed r, some (new_section w))
    else if is_option w
    then with_option w r
    else r

unfoldable pub sections_from : List Bytes → Reading → List UciSection
unfolding words
sections_from [] r = closed r
sections_from (line ∷ lines) r = sections_from lines (section_step (words line) r)

-- `uciSections`
unfoldable pub uci_sections : Bytes → List UciSection
unfolding sections_from split
uci_sections data_read = sections_from (split b'\n' data_read) ([], none)

abbrev last_or_empty : List Bytes → Bytes
last_or_empty [] = []
last_or_empty (a ∷ []) = a
last_or_empty (a ∷ b ∷ rest) = last_or_empty (b ∷ rest)

-- `uv`
unfoldable pub uv : UciSection → Bytes → Bytes
unfolding find_values
uv s k = last_or_empty (or_empty (find_values k s.values))

abbrev pub is_text : Bytes → String → Bool
is_text s t = equal s (codes t)

-- A rule for all IPv4 traffic
abbrev pub is_everywhere : Bytes → Bool
is_everywhere s = is_text s "" || is_text s "0.0.0.0/0"

abbrev pub is_default_rule : UciSection → Bool
is_default_rule s =
    is_text s.typ "rule"
    && (not (is_text (uv s (codes "enabled")) "0" || is_text (uv s (codes "family")) "ipv6")
        && (is_everywhere (uv s (codes "dest_ip"))
            && (is_everywhere (uv s (codes "src_ip"))
                && ((is_text (uv s (codes "proto")) "" || is_text (uv s (codes "proto")) "all")
                    && (is_text (uv s (codes "dest_port")) ""
                        && (is_text (uv s (codes "src_port")) ""
                            && not (is_text (uv s (codes "use_policy")) "")))))))

abbrev pub is_enabled_interface : UciSection → Bool
is_enabled_interface s = is_text s.typ "interface" && not (is_text (uv s (codes "enabled")) "0")

-- The loop over the sections; it ends at the first rule for all traffic.
unfoldable pub policy_of : List UciSection → Bool → Bytes × Bool
unfolding uv equal
policy_of [] configured = ([], configured)
policy_of (s ∷ ss) configured =
    let seen = if is_enabled_interface s then true else configured in
    let rest = policy_of ss seen in
    if is_default_rule s then (uv s (codes "use_policy"), seen) else rest

-- `defaultPolicy`
unfoldable pub default_policy : Bytes → Bytes × Bool
unfolding policy_of uci_sections
default_policy data_read = policy_of (uci_sections data_read) false
