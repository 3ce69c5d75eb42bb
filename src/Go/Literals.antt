-- ===== src/Go/Literals.antt =====
-- The scanners of comments, strings and numbers of
-- src/project_knowledge_mcp/project_analyzer/go/go_tokenizer.py.
pub mod Spans
pub mod Comments
pub mod Strings
pub mod Numbers
use gitlab_knowledege.Common.{
  ℕ, zero, suc, ◌+◌, Bool, true, false, not, ◌&&◌, ◌||◌, Option, some, none, [], ◌∷◌, Text, codes,
  length, drop, among, leb, ◌==◌, if◌then◌else◌,
}
use gitlab_knowledege.Go.Tokens.{
  GoTokenKind, GoToken, Reason, unterminated_string, unterminated_raw_string,
  unterminated_block_comment, invalid_escape, classify_line_comment, simple_escapes, block_comment,
  string_literal, number_literal, raw_string_literal, struct_tag, identifier,
}
use gitlab_knowledege.Go.Cursor.{
  Cursor, skip, next_line, slice, holds_at, run_length, skip_run, Scan, done, raises, out_of_fuel,
  ◌>>=◌,
}

-- `str.isdigit` and `str.isalpha` on one character.
pub record Unicode : Type 0 where
  pub is_digit : ℕ → Bool
  pub is_alpha : ℕ → Bool

abbrev pub in_range : ℕ → ℕ → ℕ → Bool
in_range lo c hi = leb lo c && leb c hi

abbrev pub is_octal_digit : ℕ → Bool
is_octal_digit c = in_range b'0' c b'7'

abbrev pub is_newline : ℕ → Bool
is_newline c = c == 10

-- A token that starts at `start` and ends where the scanner is now.
unfoldable pub token : GoTokenKind → Cursor → Cursor → GoToken × Cursor
unfolding slice
token kind start c =
    (record { kind = kind; text = slice start c; line = start.line; column = start.col }, c)

unfoldable pub scan_line_comment : Cursor → Scan (GoToken × Cursor)
unfolding token skip_run skip slice
scan_line_comment start =
    let c = skip_run (λ d. not (is_newline d)) (skip 2 start) in
    done (token (classify_line_comment (slice start c)) start c)

-- The position after `*/`, if there is one.
unfoldable pub find_comment_end : Text → ℕ → ℕ → Option Cursor
unfolding holds_at
find_comment_end [] line col = none
find_comment_end (c ∷ t) line col = elim ((c == b'*') && holds_at 0 (λ d. d == b'/') t) [
  | true ↦ some (record { rest = drop 1 t; line = line; col = col + 2 })
  | false ↦ elim (is_newline c) [
    | true ↦ find_comment_end t (line + 1) 1
    | false ↦ find_comment_end t line (col + 1)
  ]
]

unfoldable pub scan_block_comment : Cursor → Scan (GoToken × Cursor)
unfolding token skip find_comment_end
scan_block_comment start =
    let c = skip 2 start in
    elim (find_comment_end c.rest c.line c.col) [
      | some stop ↦ done (token block_comment start stop)
      | none ↦ raises start.line start.col unterminated_block_comment
    ]

-- The position after the closing backtick, if there is one.
unfoldable pub find_backtick : Text → ℕ → ℕ → Option Cursor
find_backtick [] line col = none
find_backtick (c ∷ t) line col = elim (c == b'`') [
  | true ↦ some (record { rest = t; line = line; col = col + 1 })
  | false ↦ elim (is_newline c) [
    | true ↦ find_backtick t (line + 1) 1
    | false ↦ find_backtick t line (col + 1)
  ]
]

-- The kind is `_classify_backtick_literal` of the scanner's state, which this scan leaves alone.
unfoldable pub scan_raw_string_literal : GoTokenKind → Cursor → Scan (GoToken × Cursor)
unfolding token skip find_backtick
scan_raw_string_literal kind start =
    let c = skip 1 start in
    elim (find_backtick c.rest c.line c.col) [
      | some stop ↦ done (token kind start stop)
      | none ↦ raises start.line start.col unterminated_raw_string
    ]

-- `_consume_hex_digits`, and the loop over the three digits of an octal escape.
unfoldable pub consume_digits : (ℕ → Bool) → ℕ → ℕ → ℕ → Cursor → Scan Cursor
unfolding holds_at skip
consume_digits test zero str_line str_col c = done c
consume_digits test (suc n) str_line str_col c =
    let rest = consume_digits test n str_line str_col (skip 1 c) in
    if holds_at 0 test c.rest then rest else raises str_line str_col invalid_escape

module _ (u : Unicode) where
  unfoldable pub is_hex_digit : ℕ → Bool
  is_hex_digit c = u.is_digit c || in_range b'a' c b'f' || in_range b'A' c b'F'

  -- From the character after the backslash.
  unfoldable pub consume_escape : ℕ → ℕ → Cursor → Scan Cursor
  unfolding holds_at skip consume_digits is_hex_digit
  consume_escape str_line str_col c =
      if not (holds_at 0 (λ d. true) c.rest)
      then raises str_line str_col unterminated_string
      else if holds_at 0 (λ d. among d simple_escapes) c.rest
      then done (skip 1 c)
      else if holds_at 0 (λ d. d == b'x') c.rest
      then consume_digits is_hex_digit 2 str_line str_col (skip 1 c)
      else if holds_at 0 (λ d. d == b'u') c.rest
      then consume_digits is_hex_digit 4 str_line str_col (skip 1 c)
      else if holds_at 0 (λ d. d == b'U') c.rest
      then consume_digits is_hex_digit 8 str_line str_col (skip 1 c)
      else if holds_at 0 is_octal_digit c.rest
      then consume_digits is_octal_digit 3 str_line str_col c
      else raises str_line str_col invalid_escape

  unfoldable pub consume_escape_sequence : ℕ → ℕ → Cursor → Scan Cursor
  unfolding consume_escape
  consume_escape_sequence str_line str_col c = consume_escape str_line str_col (skip 1 c)

  -- The loop of `_scan_string_literal`: the position after the closing quote.
  unfoldable pub find_quote : ℕ → ℕ → ℕ → Cursor → Scan Cursor
  unfolding holds_at skip consume_escape_sequence
  find_quote zero line col c =
      if holds_at 0 (λ d. true) c.rest then out_of_fuel else raises line col unterminated_string
  find_quote (suc fuel) line col c =
      let escaped = consume_escape_sequence line col c >>= find_quote fuel line col in
      let next = find_quote fuel line col (skip 1 c) in
      if not (holds_at 0 (λ d. true) c.rest)
      then raises line col unterminated_string
      else if holds_at 0 (λ d. d == b'"') c.rest
      then done (skip 1 c)
      else if holds_at 0 is_newline c.rest
      then raises line col unterminated_string
      else if holds_at 0 (λ d. d == b'\\') c.rest
      then escaped
      else next

  unfoldable pub scan_string_literal : Cursor → Scan (GoToken × Cursor)
  unfolding token skip find_quote
  scan_string_literal start =
      find_quote (length start.rest) start.line start.col (skip 1 start) >>= λ stop.
      done (token string_literal start stop)

  -- `_consume_number_digits`
  unfoldable pub number_digit : Bool → ℕ → Bool
  unfolding is_hex_digit
  number_digit is_hex c = u.is_digit c || (c == b'_') || (is_hex && is_hex_digit c)

  -- A radix prefix stands here.
  unfoldable pub has_prefix : Text → Bool
  unfolding holds_at
  has_prefix t = holds_at 0 (λ d. d == b'0') t && holds_at 1 (λ d. among d (codes "xXoObB")) t

  unfoldable pub has_hex_prefix : Text → Bool
  unfolding holds_at has_prefix
  has_hex_prefix t = has_prefix t && holds_at 1 (λ d. among d (codes "xX")) t

  unfoldable pub skip_prefix : Cursor → Cursor
  unfolding has_prefix skip
  skip_prefix c = if has_prefix c.rest then skip 2 c else c

  unfoldable pub skip_fraction : Bool → Cursor → Cursor
  unfolding holds_at skip skip_run number_digit is_hex_digit
  skip_fraction is_hex c =
      if not (holds_at 0 (λ d. d == b'.') c.rest)
      then c
      else if holds_at 1 (λ d. u.is_digit d || (is_hex && is_hex_digit d)) c.rest
      then skip_run (number_digit is_hex) (skip 1 c)
      else if holds_at 1 (λ d. d == b'.') c.rest
      then c
      else skip 1 c

  unfoldable pub skip_sign : Cursor → Cursor
  unfolding holds_at skip
  skip_sign c = if holds_at 0 (λ d. among d (codes "+-")) c.rest then skip 1 c else c

  unfoldable pub skip_exponent : Bool → Cursor → Cursor
  unfolding holds_at skip skip_run skip_sign
  skip_exponent is_hex c =
      if holds_at 0 (λ d. among d (if is_hex then codes "pP" else codes "eE")) c.rest
      then skip_run (λ d. u.is_digit d || (d == b'_')) (skip_sign (skip 1 c))
      else c

  unfoldable pub skip_imaginary : Cursor → Cursor
  unfolding holds_at skip
  skip_imaginary c = if holds_at 0 (λ d. d == b'i') c.rest then skip 1 c else c

  unfoldable pub scan_number : Cursor → Scan (GoToken × Cursor)
  unfolding token skip_run skip_prefix skip_fraction skip_exponent skip_imaginary has_hex_prefix
      number_digit
  scan_number start =
      let is_hex = has_hex_prefix start.rest in
      let digits = skip_run (number_digit is_hex) (skip_prefix start) in
      let fraction = skip_fraction is_hex digits in
      let exponent = skip_exponent is_hex fraction in
      done (token number_literal start (skip_imaginary exponent))
