-- ===== src/Status/Avahi.antt =====
-- `parseINI`, `commaList`, `contains` and `avahiFrom`.
pub mod Coverage
use yachtsense_link_emulator.Common.{
  ℕ, Bool, true, false, not, ◌&&◌, ◌||◌, List, [], ◌∷◌, ◌++◌, Option, none, some, ltb, ◌==◌,
  if◌then◌else◌, length, drop, ok, err,
}
use yachtsense_link_emulator.Common.Bytes.{Bytes, codes, equal, has_prefix, split, trim_suffix_byte}
use yachtsense_link_emulator.Config.Text.{trim_space, as_bool}
use yachtsense_link_emulator.Config.Interfaces.{Resolved}

-- A `map[string]string`, the newest entry of a key first
abbrev pub Table : Type 0
Table = List (Bytes × Bytes)

-- `v[k]`: the empty text for a missing key
unfoldable pub at_key : Table → Bytes → Bytes
unfolding equal
at_key [] k = []
at_key ((key, value) ∷ t) k = if equal key k then value else at_key t k

-- The bytes before the first `c`, and those behind it
unfoldable pub cut : ℕ → Bytes → Option (Bytes × Bytes)
cut c [] = none
cut c (x ∷ s) =
    let rest = cut c s in
    if x == c then some ([], s) else elim rest [ none ↦ none | some (a, b) ↦ some (x ∷ a, b) ]

abbrev before : ℕ → Bytes → Bytes
before c s = elim (cut c s) [ none ↦ s | some (a, b) ↦ a ]

abbrev is_bracket : ℕ → Bool
is_bracket c = c == b'[' || c == b']'

-- `strings.Trim(l, "[]")`
unfoldable pub trim_brackets_left : Bytes → Bytes
trim_brackets_left [] = []
trim_brackets_left (c ∷ s) = if is_bracket c then trim_brackets_left s else c ∷ s

unfoldable pub trim_brackets_right : Bytes → Bytes
trim_brackets_right [] = []
trim_brackets_right (c ∷ s) = elim (trim_brackets_right s) [
  | [] ↦ if is_bracket c then [] else c ∷ []
  | (d ∷ t) ↦ c ∷ d ∷ t
]

abbrev begins : ℕ → Bytes → Bool
begins c [] = false
begins c (x ∷ s) = x == c

abbrev ends : ℕ → Bytes → Bool
ends c [] = false
ends c (x ∷ []) = x == c
ends c (x ∷ y ∷ s) = ends c (y ∷ s)

-- One line of `parseINI`, with the section that it stands in
unfoldable pub ini_line : Bytes → Bytes × Table → Bytes × Table
unfolding cut trim_brackets_left trim_brackets_right
ini_line raw (section, out) =
    let l = trim_space raw in
    if length l == 0 || (begins b'#' l || begins b';' l)
    then (section, out)
    else if begins b'[' l && ends b']' l
    then (trim_brackets_right (trim_brackets_left l), out)
    else elim (cut b'=' l) [
      | none ↦ (section, out)
      | some (k, v) ↦ (section, (section ++ b'.' ∷ trim_space k, trim_space (before b'#' v)) ∷ out)
    ]

unfoldable pub ini_lines : List Bytes → Bytes × Table → Bytes × Table
unfolding ini_line
ini_lines [] s = s
ini_lines (l ∷ ls) s = ini_lines ls (ini_line l s)

-- `parseINI`
unfoldable pub parse_ini : Bytes → Table
unfolding ini_lines
parse_ini content = (ini_lines (split b'\n' content) ([], [])).1

abbrev keep_words : List Bytes → List Bytes
keep_words [] = []
keep_words (s ∷ ss) =
    let w = trim_space s in if length w == 0 then keep_words ss else w ∷ keep_words ss

-- `commaList`
unfoldable pub comma_list : Bytes → List Bytes
comma_list v = keep_words (split b',' v)

-- `contains`
unfoldable pub contains : List Bytes → Bytes → Bool
unfolding equal
contains [] s = false
contains (x ∷ a) s = equal x s || contains a s

-- The texts of `Reason`
pub data AvahiReason : Type 0 where
  no_process responder_only ipv4_disabled networks_missing reflection_filters matching unreadable :
      AvahiReason
  not_covered : Bytes → AvahiReason

-- `AvahiInfo`, without the path of the configuration and the flag for umdns, which only the report
-- shows
pub record AvahiInfo : Type 0 where
  pub running : Bool
  pub reflector : Bool
  pub eligible : Bool
  pub unknown : Bool
  pub reason : AvahiReason
  pub allow : List Bytes
  pub deny : List Bytes

-- The loop of `avahiFrom` over the interfaces: the reason at which it stops
unfoldable pub uncovered : List Bytes → List Bytes → List Bytes → Option AvahiReason
unfolding contains
uncovered allow deny [] = none
uncovered allow deny (n ∷ ns) =
    if length n == 0
    then some networks_missing
    else if contains deny n || (ltb 0 (length allow) && not (contains allow n))
    then some (not_covered n)
    else uncovered allow deny ns

-- `asBool` whose error is dropped: false
abbrev pub flag : (Bytes → Bytes) → Bytes → Bool
flag unicode_lower s = elim (as_bool unicode_lower s) [ ok b ↦ b | err _ ↦ false ]

-- `avahiFrom`
unfoldable pub avahi_from : (Bytes → Bytes) → Bytes → Resolved → AvahiInfo
unfolding at_key uncovered equal
avahi_from unicode_lower content r =
    let v = parse_ini content in
    let reflector = flag unicode_lower (at_key v (codes "reflector.enable-reflector")) in
    let allow = comma_list (at_key v (codes "server.allow-interfaces")) in
    let deny = comma_list (at_key v (codes "server.deny-interfaces")) in
    let info : AvahiReason → Bool → AvahiInfo = λ reason eligible. record {
      running = true;
      reflector = reflector;
      eligible = eligible;
      unknown = false;
      reason = reason;
      allow = allow;
      deny = deny;
    } in
    if not reflector
    then info responder_only false
    else if equal (at_key v (codes "server.use-ipv4")) (codes "no")
    then info ipv4_disabled false
    else elim (uncovered allow deny (r.raynet ∷ r.apps)) [
      | some reason ↦ info reason false
      | none ↦
          if not (equal (at_key v (codes "reflector.reflect-filters")) [])
          then info reflection_filters false
          else info matching true
    ]

-- The configuration files that a command line of Avahi names
unfoldable pub config_paths : List Bytes → List Bytes
unfolding equal has_prefix
config_paths [] = []
config_paths (s ∷ []) = if has_prefix s (codes "--file=") then drop 7 s ∷ [] else []
config_paths (s ∷ t ∷ args) =
    let rest = config_paths (t ∷ args) in
    if equal s (codes "-f") || equal s (codes "--file")
    then t ∷ rest
    else if has_prefix s (codes "--file=")
    then drop 7 s ∷ rest
    else rest

unfoldable pub all_config_paths : List Bytes → List Bytes
unfolding config_paths
all_config_paths [] = []
all_config_paths (cmdline ∷ rest) = config_paths (split 0 cmdline) ++ all_config_paths rest

-- The files that `inspectAvahi` tries
unfoldable pub search_paths : Bytes → List Bytes → List Bytes
unfolding all_config_paths
search_paths prefix cmdlines =
    all_config_paths cmdlines
    ++ codes "/etc/avahi/avahi-daemon.conf" ∷ (prefix ++ codes "/etc/avahi/avahi-daemon.conf") ∷ []

-- The first file that can be read
abbrev pub first_read : (Bytes → Option Bytes) → List Bytes → Option Bytes
first_read read [] = none
first_read read (p ∷ ps) = elim (read p) [ some content ↦ some content | none ↦ first_read read ps ]

abbrev plain_info : Bool → Bool → AvahiReason → AvahiInfo
plain_info running unknown reason = record {
  running = running;
  reflector = false;
  eligible = false;
  unknown = unknown;
  reason = reason;
  allow = [];
  deny = [];
}

-- What `inspectAvahi` makes of the first file that can be read
abbrev pub avahi_of : (Bytes → Bytes) → Resolved → Option Bytes → AvahiInfo
avahi_of unicode_lower r none = plain_info true true unreadable
avahi_of unicode_lower r (some content) = avahi_from unicode_lower content r

-- `inspectAvahi`: the command lines of the processes of Avahi, the reading of a file, and the prefix
-- of the installation are what the system gives.
unfoldable pub inspect_avahi :
    (Bytes → Bytes) → (Bytes → Option Bytes) → Bytes → List Bytes → Resolved → AvahiInfo
inspect_avahi unicode_lower read prefix [] r = plain_info false false no_process
inspect_avahi unicode_lower read prefix (cmdline ∷ others) r =
    avahi_of unicode_lower r (first_read read (search_paths prefix (cmdline ∷ others)))
