-- ===== src/Telemetry/Json.antt =====
-- The readers of decoded JSON in telemetry_sources.go: `obj`, `list`, `text`, `first`, `truth` and
-- `statusText`. The decoder itself is the Go library's.
use yachtsense_link_emulator.Common.{
  Bool, true, false, ◌||◌, List, [], ◌∷◌, ltb, ◌==◌, if◌then◌else◌, length, take,
}
use yachtsense_link_emulator.Common.Bytes.{Bytes, codes, equal, is_ascii, to_lower}
use yachtsense_link_emulator.Config.Text.{trim_space}

-- A value as `json.Decoder` gives it with `UseNumber`; a number is its text.
mutual
  pub data Json : Type 0 where
    null_value : Json
    truth_value : Bool → Json
    numeral string_value : Bytes → Json
    array : Items → Json
    object : Members → Json

  pub data Items : Type 0 where
    no_item : Items
    item : Json → Items → Items

  pub data Members : Type 0 where
    no_member : Members
    keyed : Bytes → Json → Members → Members

-- What the model leaves to the Go library: lower case, and dropping control characters, both for
-- texts beyond ASCII
pub record TextEnv : Type 0 where
  pub unicode_lower : Bytes → Bytes
  pub unicode_plain : Bytes → Bytes

-- `m[k]`, which gives nil for a missing key; a decoded object has each key once.
unfoldable pub value_at : Bytes → Members → Json
unfolding equal
value_at k no_member = null_value
value_at k (keyed j v m) = let rest = value_at k m in if equal j k then v else rest

abbrev pub obj : Json → Members
obj (object m) = m
obj _ = no_member

unfoldable pub items_of : Items → List Json
items_of no_item = []
items_of (item v vs) = v ∷ items_of vs

abbrev pub list : Json → List Json
list (array vs) = items_of vs
list _ = []

-- The control characters are dropped.
unfoldable pub drop_controls : Bytes → Bytes
drop_controls [] = []
drop_controls (c ∷ s) =
    let rest = drop_controls s in if ltb c 32 || c == 127 then rest else c ∷ rest

abbrev pub plain_text : TextEnv → Bytes → Bytes
plain_text env s = if is_ascii s then drop_controls s else env.unicode_plain s

-- `text` of a string
unfoldable pub text_of : TextEnv → Bytes → Bytes
unfolding trim_space drop_controls is_ascii
text_of env s =
    let t = plain_text env (trim_space s) in if ltb 160 (length t) then take 160 t else t

-- `text`
abbrev pub text : TextEnv → Json → Bytes
text env (string_value s) = text_of env s
text env (numeral s) = text_of env s
text env _ = []

-- `first`
unfoldable pub first : TextEnv → Members → List Bytes → Bytes
unfolding text_of value_at
first env m [] = []
first env m (k ∷ ks) =
    let s = text env (value_at k m) in
    let rest = first env m ks in if length s == 0 then rest else s

-- `truth`, where the second value says whether the first is one
unfoldable pub truth : TextEnv → Json → Bool × Bool
unfolding text_of to_lower equal
truth env (truth_value b) = (b, true)
truth env v =
    let s = to_lower env.unicode_lower (text env v) in
    if equal s (codes "1")
      || (equal s (codes "true")
          || (equal s (codes "yes") || (equal s (codes "on") || equal s (codes "enabled"))))
    then (true, true)
    else if equal s (codes "0")
        || (equal s (codes "false")
            || (equal s (codes "no") || (equal s (codes "off") || equal s (codes "disabled"))))
    then (false, true)
    else (false, false)

abbrev pub is_one_of : Bytes → List Bytes → Bool
is_one_of s [] = false
is_one_of s (t ∷ ts) = equal s t || is_one_of s ts

-- `statusText`
unfoldable pub status_text : TextEnv → Json → Bytes
unfolding text_of to_lower equal
status_text env v =
    let s = to_lower env.unicode_lower (text env v) in
    if is_one_of s (
      codes "connected"
      ∷ codes "established"
      ∷ codes "up"
      ∷ codes "online"
      ∷ codes "installed"
      ∷ [])
    then codes "connected"
    else if is_one_of s (
        codes "disconnected"
        ∷ codes "down"
        ∷ codes "offline"
        ∷ codes "disabled"
        ∷ codes "not connected"
        ∷ [])
    then codes "disconnected"
    else if is_one_of s (codes "connecting" ∷ codes "reconnecting" ∷ codes "connecting..." ∷ [])
    then codes "connecting"
    else codes "unknown"
