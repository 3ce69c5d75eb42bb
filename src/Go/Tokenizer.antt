-- ===== src/Go/Tokenizer.antt =====
-- `_GoTokenizer` of src/project_knowledge_mcp/project_analyzer/go/go_tokenizer.py: the dispatch
-- and the generator `tokenize`, with the text's length for fuel.
pub mod Scans
pub mod Reads
pub mod Places
use gitlab_knowledege.Common.{
  ℕ, zero, suc, ◌+◌, Bool, true, false, not, ◌&&◌, ◌||◌, Option, some, none, List, [], ◌∷◌, Text,
  codes, length, take, among, leb, ◌==◌, if◌then◌else◌, member_of, eq_text,
}
use gitlab_knowledege.Go.Tokens.{
  GoTokenKind, GoToken, Reason, identifier, raw_string_literal, struct_tag, lbrace, rbrace,
  struct_keyword, newline, whitespace, other_operator, assign, keyword_kind, single_char_kind,
  three_char_ops, two_char_ops, is_trivia, is_space_or_tab,
}
use gitlab_knowledege.Go.Cursor.{
  Cursor, skip, next_line, slice, holds_at, skip_run, Scan, done, raises, out_of_fuel, ◌>>=◌,
}
use gitlab_knowledege.Go.Literals.{
  Unicode, is_newline, token, scan_line_comment, scan_block_comment, scan_string_literal,
  scan_raw_string_literal, scan_number,
}

pub record State : Type 0 where
  pub cursor : Cursor
  pub struct_brace_stack : List Bool
  pub prev_significant : Option GoToken

abbrev pub is_kind_struct : GoTokenKind → Bool
is_kind_struct struct_keyword = true
is_kind_struct _ = false

unfoldable pub after_struct : Option GoToken → Bool
after_struct none = false
after_struct (some t) = is_kind_struct t.kind

unfoldable pub pop : List Bool → List Bool
pop [] = []
pop (b ∷ stack) = stack

unfoldable pub brace_stack : GoTokenKind → Option GoToken → List Bool → List Bool
unfolding after_struct pop
brace_stack lbrace prev stack = after_struct prev ∷ stack
brace_stack rbrace prev stack = pop stack
brace_stack _ prev stack = stack

unfoldable pub maintain_brace_stack : GoToken → State → State
unfolding brace_stack
maintain_brace_stack tok s = record s {
  struct_brace_stack = brace_stack tok.kind s.prev_significant s.struct_brace_stack;
}

unfoldable pub in_struct_frame : List Bool → Bool
in_struct_frame [] = false
in_struct_frame (b ∷ _) = b

abbrev pub is_identifier : GoTokenKind → Bool
is_identifier identifier = true
is_identifier _ = false

unfoldable pub after_identifier : Option GoToken → Bool
after_identifier none = false
after_identifier (some t) = is_identifier t.kind

unfoldable pub classify_backtick_literal : State → GoTokenKind
unfolding in_struct_frame after_identifier
classify_backtick_literal s =
    if in_struct_frame s.struct_brace_stack && after_identifier s.prev_significant
    then struct_tag
    else raw_string_literal

unfoldable pub scan_newline_lf : Cursor → Scan (GoToken × Cursor)
unfolding next_line
scan_newline_lf c =
    done (record { kind = newline; text = 10 ∷ []; line = c.line; column = c.col }, next_line 1 c)

unfoldable pub scan_newline_crlf : Cursor → Scan (GoToken × Cursor)
unfolding next_line
scan_newline_crlf c =
    done
      (record { kind = newline; text = 13 ∷ 10 ∷ []; line = c.line; column = c.col }, next_line 2 c)

-- The rounds of the loop of `_scan_whitespace`.
unfoldable pub whitespace_length : Text → ℕ
unfolding holds_at
whitespace_length [] = 0
whitespace_length (c ∷ t) =
    if is_space_or_tab c || ((c == 13) && not (holds_at 0 is_newline t))
    then suc (whitespace_length t)
    else 0

unfoldable pub scan_whitespace : Cursor → Scan (GoToken × Cursor)
unfolding token skip whitespace_length
scan_whitespace start = done (token whitespace start (skip (whitespace_length start.rest) start))

-- The token of the next `n` characters, none of which ends a line.
unfoldable pub fixed : GoTokenKind → ℕ → Cursor → Scan (GoToken × Cursor)
unfolding skip
fixed kind n c =
    done (record { kind = kind; text = take n c.rest; line = c.line; column = c.col }, skip n c)

unfoldable pub single_kind : Text → GoTokenKind
single_kind [] = other_operator
single_kind (c ∷ _) = single_char_kind c

unfoldable pub scan_operator : Cursor → Scan (GoToken × Cursor)
unfolding fixed single_kind
scan_operator c =
    if leb 3 (length c.rest) && member_of (take 3 c.rest) three_char_ops
    then fixed other_operator 3 c
    else if leb 2 (length c.rest) && eq_text (take 2 c.rest) (codes ":=")
    then fixed assign 2 c
    else if leb 2 (length c.rest) && member_of (take 2 c.rest) two_char_ops
    then fixed other_operator 2 c
    else fixed (single_kind c.rest) 1 c

-- What the generator gives to the loop that reads it; `cut_off` has no counterpart in the program.
pub data Stream : Type 0 where
  stops : Stream
  yields : GoToken → Stream → Stream
  fails : ℕ → ℕ → Reason → Stream
  cut_off : Stream

-- The rest of a round of `tokenize`, after `_scan_one`.
unfoldable pub advance : State → GoToken → Cursor → State
unfolding maintain_brace_stack
advance s tok c =
    let s' = maintain_brace_stack tok (record s { cursor = c }) in
    if is_trivia tok.kind then s' else record s' { prev_significant = some tok }

unfoldable pub continue : State → Scan (GoToken × Cursor) → (State → Stream) → Stream
unfolding advance
continue s (done (tok, c)) go_on = yields tok (go_on (advance s tok c))
continue s (raises line col r) go_on = fails line col r
continue s out_of_fuel go_on = cut_off

module _ (u : Unicode) where
  unfoldable pub scan_identifier_or_keyword : Cursor → Scan (GoToken × Cursor)
  unfolding token skip_run slice
  scan_identifier_or_keyword start =
      let c = skip_run (λ d. (d == b'_') || u.is_alpha d || u.is_digit d) start in
      done (token (keyword_kind (slice start c)) start c)

  -- `_scan_one`, which the loop calls with a character left.
  unfoldable pub scan_one : State → Scan (GoToken × Cursor)
  unfolding holds_at
  scan_one s =
      let c = s.cursor in
      let here = λ (test : ℕ → Bool). holds_at 0 test c.rest in
      let next = λ (test : ℕ → Bool). holds_at 1 test c.rest in
      if here is_newline
      then scan_newline_lf c
      else if here (λ d. d == 13)
      then (if next is_newline then scan_newline_crlf c else scan_whitespace c)
      else if here is_space_or_tab
      then scan_whitespace c
      else if here (λ d. d == b'/') && next (λ d. d == b'/')
      then scan_line_comment c
      else if here (λ d. d == b'/') && next (λ d. d == b'*')
      then scan_block_comment c
      else if here (λ d. d == b'"')
      then scan_string_literal u c
      else if here (λ d. d == b'`')
      then scan_raw_string_literal (classify_backtick_literal s) c
      else if here u.is_digit
      then scan_number u c
      else if here (λ d. d == b'.') && next u.is_digit
      then scan_number u c
      else if here (λ d. (d == b'_') || u.is_alpha d)
      then scan_identifier_or_keyword c
      else scan_operator c

  unfoldable pub tokenize : ℕ → State → Stream
  unfolding holds_at continue scan_one
  tokenize zero s = if holds_at 0 (λ d. true) s.cursor.rest then cut_off else stops
  tokenize (suc fuel) s =
      if holds_at 0 (λ d. true) s.cursor.rest
      then continue s (scan_one s) (tokenize fuel)
      else stops

  unfoldable pub tokenize_go_source : Text → Stream
  unfolding tokenize
  tokenize_go_source text = tokenize (length text) (record {
    cursor = record { rest = text; line = 1; col = 1 };
    struct_brace_stack = [];
    prev_significant = none;
  })
