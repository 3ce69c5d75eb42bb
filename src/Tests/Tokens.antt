-- ===== src/Tests/Tokens.antt =====
-- Runs of the Go tokenizer.
use gitlab_knowledege.Common.{
  true, false, ◌||◌, ◌≡◌, ◌↔◌, ◌==◌, refl, List, [], ◌∷◌, ◌++◌, Text, codes, length,
}
use gitlab_knowledege.Go.Tokens.{
  GoTokenKind, struct_keyword, whitespace, keyword_kind, is_trivia, single_char_kind, identifier,
  lbrace, rbrace, struct_tag, newline, unterminated_string,
}
use gitlab_knowledege.Go.Literals.{
  Unicode, in_range, is_hex_digit, scan_string_literal, scan_raw_string_literal,
}
use gitlab_knowledege.Go.Literals.Spans.{IsLawful}
use gitlab_knowledege.Go.Tokenizer.{
  Stream, yields, fails, tokenize_go_source, scan_newline_lf, scan_whitespace,
  scan_identifier_or_keyword, scan_operator, classify_backtick_literal,
}
use gitlab_knowledege.Go.Tokenizer.Reads.{
  texts, has_failed, EndsWithin, AllTokens, IsOneLine, texts-tokenize_go_source,
  tokenize_go_source-EndsWithin, tokenize_go_source-IsOneLine,
}
use gitlab_knowledege.Go.Tokenizer.Places.{Placed, tokenize_go_source-Placed}

-- The ASCII part of `str.isdigit` and `str.isalpha`.
abbrev ascii : Unicode
ascii = record {
  is_digit = λ c. in_range b'0' c b'9';
  is_alpha = λ c. in_range b'a' c b'z' || in_range b'A' c b'Z';
}

abbrev source : Text
source =
    codes
      "type T struct {\n\tA string `json:\"a\"`\n}\r\nx := 0x1F.8p-2i ... \"a\\x41\"/*\n*/ // go"

abbrev lawful : IsLawful ascii
lawful = record { no_digit = refl; no_letter = refl }

abbrev unclosed : Text
unclosed = codes "x := \"a\nb"

-- The kinds of a stream's tokens, and how it ends.
abbrev kinds : Stream → List GoTokenKind
kinds (yields tok s) = tok.kind ∷ kinds s
kinds _ = []

tokens_of_struct :
    kinds (tokenize_go_source ascii (codes "struct{a`b`}"))
    ≡ struct_keyword ∷ lbrace ∷ identifier ∷ struct_tag ∷ rbrace ∷ []
unfolding tokenize_go_source scan_identifier_or_keyword keyword_kind is_trivia scan_operator
    single_char_kind scan_raw_string_literal classify_backtick_literal
tokens_of_struct = refl

unclosed_string :
    tokenize_go_source ascii (codes "\n \"a")
    ≡ yields
        (record { kind = newline; text = 10 ∷ []; line = 1; column = 1 })
        (yields
          (record { kind = whitespace; text = 32 ∷ []; line = 2; column = 1 })
          (fails 2 2 unterminated_string))
unfolding tokenize_go_source scan_newline_lf is_trivia scan_whitespace scan_string_literal
unclosed_string = refl

-- A digit that is not ASCII is a hexadecimal digit, if `isdigit` says so.
digit_beyond_ascii : is_hex_digit (record ascii { is_digit = λ c. c == 1632 }) 1632 ≡ true
unfolding is_hex_digit
digit_beyond_ascii = refl

texts-tokenize_go_source_example :
    (left : Text) × (unclosed ≡ texts (tokenize_go_source ascii unclosed) ++ left)
    × ((left ≡ []) ↔ (has_failed (tokenize_go_source ascii unclosed) ≡ false))
texts-tokenize_go_source_example = texts-tokenize_go_source ascii lawful unclosed

tokenize_go_source-EndsWithin_example : EndsWithin (length source) (tokenize_go_source ascii source)
tokenize_go_source-EndsWithin_example = tokenize_go_source-EndsWithin ascii lawful source

tokenize_go_source-IsOneLine_example : AllTokens IsOneLine (tokenize_go_source ascii source)
tokenize_go_source-IsOneLine_example = tokenize_go_source-IsOneLine ascii lawful source

tokenize_go_source-Placed_example : Placed [] (tokenize_go_source ascii unclosed)
tokenize_go_source-Placed_example = tokenize_go_source-Placed ascii lawful unclosed
