-- ===== src/Go/Tokenizer/Scans.antt =====
-- The scan of one token, `_scan_one` of
-- src/project_knowledge_mcp/project_analyzer/go/go_tokenizer.py.
use mathlib.Core.Path.{subst}
use gitlab_knowledege.Common.{
  ℕ, ◌<◌, ◌≡◌, refl, sym, ap, Bool, true, false, not, List, [], ◌∷◌, length, arith, suc, Text, zero,
  ◌==◌, Bool-cases, inl, inr, ◌&&◌, ◌||◌, codes, take, drop, leb, member_of, eq_text, eq_text_sound,
  and_true, All,
}
use gitlab_knowledege.Go.Tokens.{
  GoTokenKind, whitespace, other_operator, assign, three_char_ops, two_char_ops, is_space_or_tab,
}
use gitlab_knowledege.Go.Cursor.{Cursor, skip, next_line, holds_at}
use gitlab_knowledege.Go.Cursor.Moves.{
  OneLine, Advances, Clear, Clear-one, skip-Moves, skip-Advances, OneLine-take,
}
use gitlab_knowledege.Go.Cursor.Ensures.{Ensures-if}
use gitlab_knowledege.Go.Literals.{
  Unicode, is_newline, scan_line_comment, scan_block_comment, scan_string_literal,
  scan_raw_string_literal, scan_number,
}
use gitlab_knowledege.Go.Literals.Spans.{Scans, Spans, token-Spans_line, is_multiline, IsLawful}
use gitlab_knowledege.Go.Literals.Comments.{
  scan_line_comment-Scans, scan_block_comment-Scans, scan_raw_string_literal-Scans,
}
use gitlab_knowledege.Go.Literals.Strings.{scan_string_literal-Scans}
use gitlab_knowledege.Go.Literals.Numbers.{scan_number-Scans, skip_run-Advances, not_newline}
use gitlab_knowledege.Go.Tokenizer.{
  State, classify_backtick_literal, scan_newline_lf, scan_newline_crlf, whitespace_length,
  scan_whitespace, fixed, single_kind, scan_operator, scan_identifier_or_keyword, scan_one,
}

-- The characters that the dispatch has seen.
one_seen : (k : ℕ) (t : Text) → holds_at 0 (λ d. d == k) t ≡ true → t ≡ k ∷ drop 1 t
unfolding holds_at
one_seen k [] e = cc
one_seen k (c ∷ t) e = let same : c ≡ k = ground arith in rw same

two_seen :
    (k l : ℕ) (t : Text)
    → holds_at 0 (λ d. d == k) t ≡ true
    → holds_at 1 (λ d. d == l) t ≡ true
    → t ≡ k ∷ l ∷ drop 2 t
unfolding holds_at
two_seen k l [] e f = cc
two_seen k l (c ∷ []) e f = cc
two_seen k l (c ∷ d ∷ t) e f =
    let same : c ≡ k = ground arith in let same' : d ≡ l = ground arith in rw (same, same')

scan_newline_lf-Scans :
    (a : Cursor) → holds_at 0 is_newline a.rest ≡ true → Scans a (scan_newline_lf a)
unfolding scan_newline_lf next_line
scan_newline_lf-Scans a e =
    let seen = one_seen 10 a.rest e in
    record {
      moves = record { rest = seen; line = refl; col = refl };
      line = refl;
      column = refl;
      filled = let counted = ap length seen in omega arith;
      one_line = λ e. cc;
    }

scan_newline_crlf-Scans :
    (a : Cursor)
    → holds_at 0 (λ d. d == 13) a.rest ≡ true
    → holds_at 1 is_newline a.rest ≡ true
    → Scans a (scan_newline_crlf a)
unfolding scan_newline_crlf next_line
scan_newline_crlf-Scans a e f =
    let seen = two_seen 13 10 a.rest e f in
    record {
      moves = record { rest = seen; line = refl; col = refl };
      line = refl;
      column = refl;
      filled = let counted = ap length seen in omega arith;
      one_line = λ e. cc;
    }

whitespace_length-Clear : (t : Text) → Clear (whitespace_length t) t
unfolding whitespace_length
whitespace_length-Clear [] = tt
whitespace_length-Clear (c ∷ t) =
    elim (Bool-cases (is_space_or_tab c || ((c == 13) && not (holds_at 0 is_newline t)))) [
      | inl e ↦ rw e (ground arith, whitespace_length-Clear t)
      | inr e ↦ rw e tt
    ]

scan_whitespace-Scans : (a : Cursor) → 0 < whitespace_length a.rest → Scans a (scan_whitespace a)
unfolding scan_whitespace
scan_whitespace-Scans a h =
    token-Spans_line whitespace a _
      (moved (whitespace_length a.rest) h (whitespace_length-Clear a.rest))
  where
    moved : (n : ℕ) → 0 < n → Clear n a.rest → Advances a (skip n a)
    moved zero h k = absurd (omega arith)
    moved (suc n) h k = skip-Advances n a k

whitespace_length_blank : (t : Text) → holds_at 0 is_space_or_tab t ≡ true → 0 < whitespace_length t
unfolding whitespace_length holds_at
whitespace_length_blank [] e = cc
whitespace_length_blank (c ∷ t) e = rw e (omega arith)

whitespace_length_return :
    (t : Text)
    → holds_at 0 (λ d. d == 13) t ≡ true
    → holds_at 1 is_newline t ≡ false
    → 0 < whitespace_length t
unfolding whitespace_length holds_at
whitespace_length_return [] e f = cc
whitespace_length_return (c ∷ t) e f = ground arith

fixed-Scans :
    (kind : GoTokenKind) (n : ℕ) (a : Cursor)
    → Clear (suc n) a.rest
    → Scans a (fixed kind (suc n) a)
unfolding fixed
fixed-Scans kind n a h = record {
  moves = skip-Moves (suc n) a h;
  line = refl;
  column = refl;
  filled = (skip-Advances n a h).shorter;
  one_line = λ e. OneLine-take (suc n) a.rest h;
}

member_of-OneLine : (t : Text) (us : List Text) → member_of t us ≡ true → All OneLine us → OneLine t
member_of-OneLine t [] e h = cc
member_of-OneLine t (u ∷ us) e (h, hs) = elim (Bool-cases (eq_text u t)) [
  | inl same ↦ subst OneLine (eq_text_sound u t same) h
  | inr other ↦ member_of-OneLine t us (ground arith) hs
]

Clear-take : (n : ℕ) (t : Text) → leb n (length t) ≡ true → OneLine (take n t) → Clear n t
Clear-take zero t e h = tt
Clear-take (suc n) [] e h = ground arith
Clear-take (suc n) (c ∷ t) e (h, hs) = (h, Clear-take n t (ground arith) hs)

not_newline_here :
    (t : Text)
    → holds_at 0 (λ d. true) t ≡ true
    → holds_at 0 is_newline t ≡ false
    → holds_at 0 (λ d. not (is_newline d)) t ≡ true
unfolding holds_at
not_newline_here [] e f = cc
not_newline_here (c ∷ t) e f = rw f

-- An operator of the tables.
listed-Scans :
    (kind : GoTokenKind) (n : ℕ) (ops : List Text) (a : Cursor)
    → All OneLine ops
    → (leb (suc n) (length a.rest) && member_of (take (suc n) a.rest) ops) ≡ true
    → Scans a (fixed kind (suc n) a)
listed-Scans kind n ops a plain e =
    let (enough, listed) = and_true _ _ e in
    fixed-Scans kind n a
      (Clear-take (suc n) a.rest enough (member_of-OneLine (take (suc n) a.rest) ops listed plain))

assign-Scans :
    (a : Cursor)
    → (leb 2 (length a.rest) && eq_text (take 2 a.rest) (codes ":=")) ≡ true
    → Scans a (fixed assign 2 a)
assign-Scans a e =
    let (enough, same) = and_true _ _ e in
    fixed-Scans assign 1 a (
      Clear-take 2 a.rest enough
        (subst OneLine (sym (eq_text_sound (take 2 a.rest) (codes ":=") same)) (omega arith)))

scan_operator-Scans :
    (a : Cursor)
    → holds_at 0 (λ d. true) a.rest ≡ true
    → holds_at 0 is_newline a.rest ≡ false
    → Scans a (scan_operator a)
unfolding scan_operator
scan_operator-Scans a some_left other =
    let S = Ensures-if a.line a.col (Spans a) in
    S (leb 3 (length a.rest) && member_of (take 3 a.rest) three_char_ops) (fixed other_operator 3 a)
      _ (listed-Scans other_operator 2 three_char_ops a (omega arith))
      λ _.
        S (leb 2 (length a.rest) && eq_text (take 2 a.rest) (codes ":=")) (fixed assign 2 a) _
          (assign-Scans a)
          λ _.
            S (leb 2 (length a.rest) && member_of (take 2 a.rest) two_char_ops)
              (fixed other_operator 2 a) _
              (listed-Scans other_operator 1 two_char_ops a (omega arith))
              λ _. fixed-Scans (single_kind a.rest) 0 a (
                Clear-one (λ d. not (is_newline d)) a.rest refl
                  (not_newline_here a.rest some_left other))

classify_backtick_literal-multiline :
    (s : State) → is_multiline (classify_backtick_literal s) ≡ true
unfolding classify_backtick_literal
classify_backtick_literal-multiline s = ground arith

module _ (u : Unicode) (lawful : IsLawful u) where
  letter_or_digit :
      (t : Text)
      → holds_at 0 (λ d. (d == b'_') || u.is_alpha d) t ≡ true
      → holds_at 0 (λ d. (d == b'_') || u.is_alpha d || u.is_digit d) t ≡ true
  unfolding holds_at
  letter_or_digit [] e = cc
  letter_or_digit (c ∷ t) e = ground arith

  scan_identifier_or_keyword-Scans :
      (a : Cursor)
      → holds_at 0 (λ d. (d == b'_') || u.is_alpha d) a.rest ≡ true
      → Scans a (scan_identifier_or_keyword u a)
  unfolding scan_identifier_or_keyword
  scan_identifier_or_keyword-Scans a e = token-Spans_line _ a _ (
      skip_run-Advances (λ d. (d == b'_') || u.is_alpha d || u.is_digit d) a
        (not_newline (λ d. (d == b'_') || u.is_alpha d || u.is_digit d)
          (rw (lawful.no_letter, lawful.no_digit)))
        (letter_or_digit a.rest e))

  -- From a position with a character left, the scan of a token ends within its fuel: with the
  -- token that stands there, which is not empty, or with an error at that position.
  pub scan_one-Scans :
      (s : State) → holds_at 0 (λ d. true) s.cursor.rest ≡ true → Scans s.cursor (scan_one u s)
  unfolding scan_one
  scan_one-Scans s some_left =
      let a = s.cursor in
      let S = Ensures-if a.line a.col (Spans a) in
      let here = λ (test : ℕ → Bool). holds_at 0 test a.rest in
      let next = λ (test : ℕ → Bool). holds_at 1 test a.rest in
      S (here is_newline) (scan_newline_lf a) _ (scan_newline_lf-Scans a) λ no_newline.
        S (here (λ d. d == 13)) _ _
          (λ e.
            S (next is_newline) (scan_newline_crlf a) (scan_whitespace a)
              (scan_newline_crlf-Scans a e)
              (λ f. scan_whitespace-Scans a (whitespace_length_return a.rest e f)))
          λ _.
            S (here is_space_or_tab) (scan_whitespace a) _
              (λ e. scan_whitespace-Scans a (whitespace_length_blank a.rest e))
              λ _.
                S (here (λ d. d == b'/') && next (λ d. d == b'/')) (scan_line_comment a) _
                  (λ e. let (f, g) = and_true _ _ e in scan_line_comment-Scans a f g)
                  λ _.
                    S (here (λ d. d == b'/') && next (λ d. d == b'*')) (scan_block_comment a) _
                      (λ e. let (f, g) = and_true _ _ e in scan_block_comment-Scans a f g)
                      λ _.
                        S (here (λ d. d == b'"')) (scan_string_literal u a) _
                          (scan_string_literal-Scans u lawful.no_digit a)
                          λ _.
                            S (here (λ d. d == b'`'))
                              (scan_raw_string_literal (classify_backtick_literal s) a) _
                              (scan_raw_string_literal-Scans (classify_backtick_literal s) a
                                (classify_backtick_literal-multiline s))
                              λ _.
                                S (here u.is_digit) (scan_number u a) _
                                  (λ e. scan_number-Scans u lawful.no_digit a (inl e))
                                  λ _.
                                    S (here (λ d. d == b'.') && next u.is_digit) (scan_number u a) _
                                      (λ e.
                                        scan_number-Scans u lawful.no_digit a
                                          (inr (and_true _ _ e)))
                                      λ _.
                                        S (here (λ d. (d == b'_') || u.is_alpha d))
                                          (scan_identifier_or_keyword u a) (scan_operator a)
                                          (scan_identifier_or_keyword-Scans a)
                                          λ _. scan_operator-Scans a some_left no_newline
