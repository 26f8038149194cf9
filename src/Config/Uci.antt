-- ===== src/Config/Uci.antt =====
-- `parseUCI`: the options of the section `emulator 'main'`.
use yachtsense_link_emulator.Common.{
  Bool, false, ◌&&◌, ◌||◌, not, List, [], ◌∷◌, ◌++◌, Option, none, some, leb, ◌==◌, if◌then◌else◌,
  length, ok, err, ◌>>=◌,
}
use yachtsense_link_emulator.Common.Bytes.{Bytes, codes, equal, split}
use yachtsense_link_emulator.Config.Words.{ConfigResult, words, line_too_long, invalid_option}

-- `map[string][]string`, each key once
abbrev pub Values : Type 0
Values = List (Bytes × List Bytes)

-- `v[k]`
unfoldable pub find_values : Bytes → Values → Option (List Bytes)
find_values k [] = none
find_values k ((j, a) ∷ v) = if equal j k then some a else find_values k v

-- `v[k] = a`
unfoldable pub set_values : Bytes → List Bytes → Values → Values
set_values k a [] = (k, a) ∷ []
set_values k a ((j, b) ∷ v) = if equal j k then (k, a) ∷ v else (j, b) ∷ set_values k a v

abbrev pub or_empty : Option (List Bytes) → List Bytes
or_empty none = []
or_empty (some a) = a

-- The loop's state: whether the section is the emulator's, and the options read
pub record Section : Type 0 where
  pub active : Bool
  pub values : Values

-- `case "option", "list"` in an active section; `list` appends.
unfoldable pub option_line : Bool → List Bytes → Section → ConfigResult Section
option_line is_list (_ ∷ k ∷ a ∷ []) s = ok (record s {
  values =
      set_values k (if is_list then or_empty (find_values k s.values) ++ a ∷ [] else a ∷ [])
        s.values;
})
option_line is_list _ s = err invalid_option

-- `len(w) >= 3 && w[1] == "emulator" && w[2] == "main"`
unfoldable pub is_emulator : List Bytes → Bool
is_emulator (_ ∷ t ∷ n ∷ _) = equal t (codes "emulator") && equal n (codes "main")
is_emulator _ = false

-- The body of the loop on a line's words
unfoldable pub uci_words : List Bytes → Section → ConfigResult Section
unfolding option_line is_emulator
uci_words [] s = ok s
uci_words (w ∷ ws) s =
    if equal w (codes "config")
    then ok (record s { active = is_emulator (w ∷ ws) })
    else if equal w (codes "option") || equal w (codes "list")
    then (if not s.active then ok s else option_line (equal w (codes "list")) (w ∷ ws) s)
    else ok s

-- A carriage return at the end of a line is not part of it (`bufio.ScanLines`).
unfoldable pub drop_cr : Bytes → Bytes
drop_cr [] = []
drop_cr (c ∷ []) = if c == b'\r' then [] else c ∷ []
drop_cr (c ∷ d ∷ s) = c ∷ drop_cr (d ∷ s)

-- The loop over the lines. The scanner's buffer holds 65536 bytes, and a line must fit in with its
-- end; the lines before one that does not fit have been read.
unfoldable pub uci_lines : List Bytes → Section → ConfigResult Section
unfolding uci_words drop_cr
uci_lines [] s = ok s
uci_lines (line ∷ lines) s =
    let rest = words (drop_cr line) >>= λ w. uci_words w s >>= λ s'. uci_lines lines s' in
    if leb 65536 (length line) then err line_too_long else rest

-- `parseUCI`. What stands behind the last line end is a line too; where it is empty the scanner has
-- none, and an empty line has no words.
unfoldable pub parse_uci : Bytes → ConfigResult Values
unfolding uci_lines
parse_uci text =
    uci_lines (split b'\n' text) (record { active = false; values = [] }) >>= λ s. ok s.values
