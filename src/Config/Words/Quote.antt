-- ===== src/Config/Words/Quote.antt =====
-- `quoteUCI` and `words` (config.go), one behind the other.
use yachtsense_link_emulator.Common.{
  ℕ, true, false, List, [], ◌∷◌, ◌++◌, append_assoc, append-nil, ◌≡◌, ap, ◌∙◌, inl, inr, ◌==◌, ok,
  arith, Bool-cases,
}
use yachtsense_link_emulator.Common.Bytes.{Bytes}
use yachtsense_link_emulator.Config.Words.{Lexer, words_from, words, escape_quotes, quote_uci}

-- Inside single quotes, with a word begun
abbrev inside : List Bytes → Bytes → Lexer
inside out buffer = record {
  out = out;
  buffer = buffer;
  active = true;
  quote = b'\'';
  escaped = false;
}

-- Between words
abbrev between : List Bytes → Lexer
between out = record { out = out; buffer = []; active = false; quote = 0; escaped = false }

-- Behind a closing quote
abbrev closed : List Bytes → Bytes → Lexer
closed out buffer = record { out = out; buffer = buffer; active = true; quote = 0; escaped = false }

words_from-escape_quotes :
    (v : Bytes) (out : List Bytes) (buffer rest : Bytes)
    → words_from (inside out buffer) (escape_quotes v ++ b'\'' ∷ rest)
      ≡ words_from (closed out (buffer ++ v)) rest
unfolding words_from escape_quotes
words_from-escape_quotes [] out buffer rest = rw append-nil
words_from-escape_quotes (c ∷ v) out buffer rest = elim (Bool-cases (c == b'\'')) [
  | inl mark ↦
      let same : b'\'' ≡ c = ground arith in
      rw mark (
        words_from-escape_quotes v out (buffer ++ b'\'' ∷ []) rest
        ∙ ap (λ t. words_from (closed out t) rest)
            (append_assoc buffer (b'\'' ∷ []) v ∙ ap (λ (x : ℕ). buffer ++ x ∷ v) same))
  | inr plain ↦
      let step =
        words_from-escape_quotes v out (buffer ++ c ∷ []) rest
        ∙ ap (λ t. words_from (closed out t) rest) (append_assoc buffer (c ∷ []) v) in
      elim (Bool-cases (c == b'\\')) [
        | inl slash ↦ rw (plain, slash, plain) step
        | inr other ↦ rw (plain, plain, other) step
      ]
]

-- A line of quoted values, with a space behind each
abbrev pub quoted_line : List Bytes → Bytes
quoted_line [] = []
quoted_line (v ∷ vs) = quote_uci v ++ b' ' ∷ quoted_line vs

words_from-quote_uci :
    (v : Bytes) (out : List Bytes) (rest : Bytes)
    → words_from (between out) (quote_uci v ++ b' ' ∷ rest)
      ≡ words_from (between (out ++ v ∷ [])) rest
unfolding words_from quote_uci
words_from-quote_uci v out rest =
    rw (append_assoc (escape_quotes v) (b'\'' ∷ []) (b' ' ∷ rest))
      (words_from-escape_quotes v out [] (b' ' ∷ rest))

words_from-quoted_line :
    (vs out : List Bytes) → words_from (between out) (quoted_line vs) ≡ ok (out ++ vs)
words_from-quoted_line [] out = unfold words_from in rw append-nil
words_from-quoted_line (v ∷ vs) out =
    words_from-quote_uci v out (quoted_line vs)
    ∙ words_from-quoted_line vs (out ++ v ∷ [])
    ∙ ap ok (append_assoc out (v ∷ []) vs)

-- A line of values that `quoteUCI` wrote, with a space behind each, is read by `words` as exactly
-- those values: quotes, backslashes, `#`, blanks and empty values included.
pub words-quoted_line : (vs : List Bytes) → words (quoted_line vs) ≡ ok vs
unfolding words
words-quoted_line vs = words_from-quoted_line vs []
