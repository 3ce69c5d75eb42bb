-- ===== src/Go/Tokens.antt =====
-- Tokens, of src/project_knowledge_mcp/project_analyzer/go/_events.py, and the tables of
-- go_tokenizer.py beside it.
use gitlab_knowledege.Common.{
  ℕ, Bool, true, false, ◌&&◌, List, [], ◌∷◌, Text, String, codes, eq_text, begins_with, ◌==◌,
  if◌then◌else◌, length, drop, among,
}

pub data GoTokenKind : Type 0 where
  package_keyword import_keyword func_keyword type_keyword struct_keyword : GoTokenKind
  interface_keyword identifier string_literal raw_string_literal number_literal : GoTokenKind
  lbrace rbrace lparen rparen lbracket rbracket comma dot colon semicolon star : GoTokenKind
  ampersand assign line_comment block_comment struct_tag build_constraint_comment : GoTokenKind
  cgo_pragma_comment newline whitespace other_operator : GoTokenKind

pub record GoToken : Type 0 where
  pub kind : GoTokenKind
  pub text : Text
  pub line : ℕ
  pub column : ℕ

-- The four reasons of `GoTokenizationError`.
pub data Reason : Type 0 where
  unterminated_string unterminated_raw_string unterminated_block_comment : Reason
  invalid_escape : Reason

unfoldable pub reason_text : Reason → String
reason_text unterminated_string = "unterminated string literal"
reason_text unterminated_raw_string = "unterminated raw string literal"
reason_text unterminated_block_comment = "unterminated block comment"
reason_text invalid_escape = "invalid escape sequence"

unfoldable pub keyword_kind : Text → GoTokenKind
keyword_kind t =
    if eq_text t (codes "package")
    then package_keyword
    else if eq_text t (codes "import")
    then import_keyword
    else if eq_text t (codes "func")
    then func_keyword
    else if eq_text t (codes "type")
    then type_keyword
    else if eq_text t (codes "struct")
    then struct_keyword
    else if eq_text t (codes "interface")
    then interface_keyword
    else identifier

unfoldable pub single_char_kind : ℕ → GoTokenKind
single_char_kind c =
    if c == b'{'
    then lbrace
    else if c == b'}'
    then rbrace
    else if c == b'('
    then lparen
    else if c == b')'
    then rparen
    else if c == b'['
    then lbracket
    else if c == b']'
    then rbracket
    else if c == b','
    then comma
    else if c == b'.'
    then dot
    else if c == b':'
    then colon
    else if c == b';'
    then semicolon
    else if c == b'*'
    then star
    else if c == b'&'
    then ampersand
    else if c == b'='
    then assign
    else other_operator

abbrev pub three_char_ops : List Text
three_char_ops = codes "<<=" ∷ codes ">>=" ∷ codes "&^=" ∷ codes "..." ∷ []

abbrev pub two_char_ops : List Text
two_char_ops =
    codes "=="
    ∷ codes "!="
    ∷ codes "<="
    ∷ codes ">="
    ∷ codes "&&"
    ∷ codes "||"
    ∷ codes "<<"
    ∷ codes ">>"
    ∷ codes "+="
    ∷ codes "-="
    ∷ codes "*="
    ∷ codes "/="
    ∷ codes "%="
    ∷ codes "&="
    ∷ codes "|="
    ∷ codes "^="
    ∷ codes "++"
    ∷ codes "--"
    ∷ codes "<-"
    ∷ codes "&^"
    ∷ []

abbrev pub simple_escapes : Text
simple_escapes = codes "abfnrtv\\'\""

unfoldable pub is_trivia : GoTokenKind → Bool
is_trivia whitespace = true
is_trivia newline = true
is_trivia line_comment = true
is_trivia block_comment = true
is_trivia build_constraint_comment = true
is_trivia cgo_pragma_comment = true
is_trivia _ = false

-- `" "` or `"\t"`
abbrev pub is_space_or_tab : ℕ → Bool
is_space_or_tab c = among c (32 ∷ 9 ∷ [])

unfoldable pub ends_word : Text → Bool
ends_word [] = true
ends_word (c ∷ _) = is_space_or_tab c

-- The text starts with the word, and the word ends there or at a blank.
unfoldable pub directive : Text → Text → Bool
unfolding ends_word
directive word t = begins_with word t && ends_word (drop (length word) t)

unfoldable pub lstrip : Text → Text
lstrip [] = []
lstrip (c ∷ t) = if is_space_or_tab c then lstrip t else c ∷ t

unfoldable pub classify_directive : Text → GoTokenKind
classify_directive stripped =
    if directive (codes "+build") stripped
    then build_constraint_comment
    else if directive (codes "#cgo") stripped
    then cgo_pragma_comment
    else line_comment

unfoldable pub starts_blank : Text → Bool
starts_blank [] = false
starts_blank (c ∷ _) = is_space_or_tab c

unfoldable pub classify_line_comment : Text → GoTokenKind
unfolding directive classify_directive starts_blank lstrip
classify_line_comment text =
    let body = drop 2 text in
    if directive (codes "go:build") body
    then build_constraint_comment
    else if starts_blank body
    then classify_directive (lstrip body)
    else line_comment
