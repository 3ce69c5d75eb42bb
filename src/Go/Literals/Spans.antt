-- ===== src/Go/Literals/Spans.antt =====
-- What a scan of src/project_knowledge_mcp/project_analyzer/go/go_tokenizer.py owes to its caller.
use gitlab_knowledege.Common.{◌<◌, ◌≡◌, refl, Bool, true, false, length}
use gitlab_knowledege.Go.Tokens.{
  GoTokenKind, GoToken, newline, block_comment, raw_string_literal, struct_tag,
}
use gitlab_knowledege.Go.Cursor.{Cursor, Scan}
use gitlab_knowledege.Go.Cursor.Moves.{Moves, OneLine, Reaches, Advances, slice_moved}
use gitlab_knowledege.Go.Cursor.Ensures.{Ensures}
use gitlab_knowledege.Go.Literals.{Unicode, token}

-- `\n` is neither a digit nor a letter to `str.isdigit` and `str.isalpha`.
pub record IsLawful (u : Unicode) : Type 0 where
  pub no_digit : u.is_digit 10 ≡ false
  pub no_letter : u.is_alpha 10 ≡ false

-- The kinds of token in which a line may end.
abbrev pub is_multiline : GoTokenKind → Bool
is_multiline newline = true
is_multiline block_comment = true
is_multiline raw_string_literal = true
is_multiline struct_tag = true
is_multiline _ = false

-- The token is what the scanner read between the two positions, which is not empty, and it
-- carries the first of them.
pub record Spans (a : Cursor) (r : GoToken × Cursor) : Type 0 where
  pub moves : Moves r.0.text a r.1
  pub line : r.0.line ≡ a.line
  pub column : r.0.column ≡ a.col
  pub filled : length r.1.rest < length a.rest
  pub one_line : is_multiline r.0.kind ≡ false → OneLine r.0.text

-- A scan from `a` that ends gives such a token, and one that raises carries the position `a`.
abbrev pub Scans : Cursor → Scan (GoToken × Cursor) → Type 0
Scans a m = Ensures a.line a.col (Spans a) m

pub token-Spans :
    (kind : GoTokenKind) (a b : Cursor)
    → Reaches a b
    → length b.rest < length a.rest
    → is_multiline kind ≡ true
    → Spans a (token kind a b)
unfolding token
token-Spans kind a b (t, m) h multi = record {
  moves = rw (slice_moved m) m;
  line = refl;
  column = refl;
  filled = h;
  one_line = λ e. cc;
}

pub token-Spans_line : (kind : GoTokenKind) (a b : Cursor) → Advances a b → Spans a (token kind a b)
unfolding token
token-Spans_line kind a b p =
    let (t, m, one) = p.reaches in
    record {
      moves = rw (slice_moved m) m;
      line = refl;
      column = refl;
      filled = p.shorter;
      one_line = λ e. rw (slice_moved m) one;
    }
