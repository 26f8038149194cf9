-- ===== src/Config/Words.antt =====
-- `words` and `quoteUCI`: UCI quoting without a shell.
pub mod Quote
use yachtsense_link_emulator.Common.{
  ℕ, Bool, true, false, not, ◌&&◌, ◌||◌, List, [], ◌∷◌, ◌++◌, Option, none, some, ◌==◌,
  if◌then◌else◌, Result, ok, err,
}
use yachtsense_link_emulator.Common.Bytes.{Bytes, codes}

-- The errors of the configuration's readers
pub data ConfigError : Type 0 where
  trailing_escape unterminated_quote invalid_option line_too_long invalid_boolean invalid_number :
      ConfigError
  dashboard_port_range dashboard_list_long dashboard_list_networks raynet_mode_unknown : ConfigError
  app_mode_unknown discovery_mode_unknown raynet_address out_of_range raynet_interface : ConfigError
  too_many_apps no_app app_interface serial_text version_text hostname_length hostname_label :
      ConfigError
  log_level_unknown manage_ip_mode : ConfigError

abbrev pub ConfigResult : Type 0 → Type 0
ConfigResult = Result ConfigError

-- The variables of the loop of `words`. `quote` is 0 outside quotes; `escaped` holds between a
-- backslash and the byte that it takes as it stands.
pub record Lexer : Type 0 where
  pub out : List Bytes
  pub buffer : Bytes
  pub active : Bool
  pub quote : ℕ
  pub escaped : Bool

abbrev pub write_byte : Lexer → ℕ → Lexer
write_byte s ch = record s { buffer = s.buffer ++ ch ∷ [] }

-- A byte inside quotes
unfoldable pub quoted_step : Lexer → ℕ → Lexer
quoted_step s ch =
    if ch == s.quote
    then record s { quote = 0 }
    else if ch == b'\\' && s.quote == b'"'
    then record s { escaped = true }
    else write_byte s ch

-- A byte outside quotes
unfoldable pub plain_step : Lexer → ℕ → Lexer
plain_step s ch =
    if ch == b'\'' || ch == b'"'
    then record s { quote = ch; active = true }
    else if ch == b'\\'
    then record s { escaped = true; active = true }
    else if ch == b' ' || ch == b'\t' || ch == b'\r'
    then (if s.active
        then record s { out = s.out ++ s.buffer ∷ []; buffer = []; active = false }
        else s)
    else record s { buffer = s.buffer ++ ch ∷ []; active = true }

-- One round of the loop; `none` is the `break` at a comment.
unfoldable pub words_step : Lexer → ℕ → Option Lexer
unfolding quoted_step plain_step
words_step s ch =
    if s.escaped
    then some (record (write_byte s ch) { escaped = false })
    else if not (s.quote == 0)
    then some (quoted_step s ch)
    else if ch == b'#' && not s.active
    then none
    else some (plain_step s ch)

-- Behind the loop
unfoldable pub words_end : Lexer → ConfigResult (List Bytes)
words_end s =
    if s.escaped
    then err trailing_escape
    else if not (s.quote == 0)
    then err unterminated_quote
    else if s.active
    then ok (s.out ++ s.buffer ∷ [])
    else ok s.out

unfoldable pub words_from : Lexer → Bytes → ConfigResult (List Bytes)
unfolding words_step words_end
words_from s [] = words_end s
words_from s (ch ∷ rest) = elim (words_step s ch) [
  | none ↦ words_end s
  | some s' ↦ words_from s' rest
]

abbrev pub new_lexer : Lexer
new_lexer = record { out = []; buffer = []; active = false; quote = 0; escaped = false }

-- `words`
unfoldable pub words : Bytes → ConfigResult (List Bytes)
unfolding words_from
words line = words_from new_lexer line

-- `strings.ReplaceAll(s, "'", "'\\''")`
unfoldable pub escape_quotes : Bytes → Bytes
escape_quotes [] = []
escape_quotes (c ∷ s) =
    if c == b'\'' then b'\'' ∷ b'\\' ∷ b'\'' ∷ b'\'' ∷ escape_quotes s else c ∷ escape_quotes s

-- `quoteUCI`
unfoldable pub quote_uci : Bytes → Bytes
unfolding escape_quotes
quote_uci s = b'\'' ∷ (escape_quotes s ++ b'\'' ∷ [])
