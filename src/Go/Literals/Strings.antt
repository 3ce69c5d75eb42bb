-- ===== src/Go/Literals/Strings.antt =====
-- The scan of a string literal of src/project_knowledge_mcp/project_analyzer/go/go_tokenizer.py:
-- its escapes, and the fuel of its loop.
use gitlab_knowledege.Common.{
  ℕ, ◌≤◌, ◌≡◌, refl, Bool, true, false, not, [], ◌∷◌, length, arith, suc, Text, zero, ◌==◌, among,
}
use gitlab_knowledege.Go.Tokens.{
  string_literal, unterminated_string, invalid_escape, simple_escapes,
}
use gitlab_knowledege.Go.Cursor.{Cursor, skip, holds_at, done, raises}
use gitlab_knowledege.Go.Cursor.Moves.{
  ReachesInLine, ReachesInLine-trans, ReachesInLine-same, Advances, Advances-trans, skip-Advances,
  Clear-one,
}
use gitlab_knowledege.Go.Cursor.Ensures.{
  Ensures, Ensures-bind, Ensures-if, Ensures-if_raises, Ensures-weaken,
}
use gitlab_knowledege.Go.Literals.{
  Unicode, token, consume_digits, consume_escape, consume_escape_sequence, find_quote,
  scan_string_literal, is_hex_digit, is_octal_digit, is_newline,
}
use gitlab_knowledege.Go.Literals.Spans.{Scans, Spans, token-Spans_line}

-- The character under the scanner, which passes a test that a newline fails.
pub skip-Advances_one :
    (test : ℕ → Bool) (c : Cursor)
    → test 10 ≡ false
    → holds_at 0 test c.rest ≡ true
    → Advances c (skip 1 c)
skip-Advances_one test c h e = skip-Advances 0 c (Clear-one test c.rest h e)

nothing_left : (t : Text) → length t ≤ 0 → holds_at 0 (λ d. true) t ≡ false
unfolding holds_at
nothing_left [] h = refl
nothing_left (c ∷ t) h = absurd (omega arith)

module _ (line col : ℕ) where
  consume_digits-Ensures :
      (test : ℕ → Bool) (n : ℕ) (c : Cursor)
      → test 10 ≡ false
      → Ensures line col (ReachesInLine c) (consume_digits test n line col c)
  unfolding consume_digits
  consume_digits-Ensures test zero c h = ReachesInLine-same c
  consume_digits-Ensures test (suc n) c h =
      Ensures-if line col (ReachesInLine c) (holds_at 0 test c.rest) _ _
        (λ e.
          Ensures-weaken line col (ReachesInLine (skip 1 c)) (ReachesInLine c) _
            (λ b reached. ReachesInLine-trans (skip-Advances_one test c h e).reaches reached)
            (consume_digits-Ensures test n (skip 1 c) h))
        (λ e. (refl, refl))

  module _ (u : Unicode) (no_digit : u.is_digit 10 ≡ false) where
    hex_digits-Ensures :
        (test : ℕ → Bool) (n : ℕ) (c : Cursor)
        → test 10 ≡ false
        → holds_at 0 test c.rest ≡ true
        → Ensures line col (ReachesInLine c) (consume_digits (is_hex_digit u) n line col (skip 1 c))
    unfolding is_hex_digit
    hex_digits-Ensures test n c h e =
        Ensures-weaken line col (ReachesInLine (skip 1 c)) (ReachesInLine c) _
          (λ b reached. ReachesInLine-trans (skip-Advances_one test c h e).reaches reached)
          (consume_digits-Ensures (is_hex_digit u) n (skip 1 c) (rw no_digit))

    consume_escape-Ensures :
        (c : Cursor) → Ensures line col (ReachesInLine c) (consume_escape u line col c)
    unfolding consume_escape
    consume_escape-Ensures c =
        let R = ReachesInLine c in
        Ensures-if_raises line col R (not (holds_at 0 (λ d. true) c.rest)) unterminated_string _
          λ e.
            Ensures-if line col R (holds_at 0 (λ d. among d simple_escapes) c.rest)
              (done (skip 1 c)) _
              (λ e. (skip-Advances_one (λ d. among d simple_escapes) c refl e).reaches)
              λ e.
                Ensures-if line col R (holds_at 0 (λ d. d == b'x') c.rest) _ _
                  (hex_digits-Ensures (λ d. d == b'x') 2 c refl)
                  λ e.
                    Ensures-if line col R (holds_at 0 (λ d. d == b'u') c.rest) _ _
                      (hex_digits-Ensures (λ d. d == b'u') 4 c refl)
                      λ e.
                        Ensures-if line col R (holds_at 0 (λ d. d == b'U') c.rest) _ _
                          (hex_digits-Ensures (λ d. d == b'U') 8 c refl)
                          λ e.
                            Ensures-if line col R (holds_at 0 is_octal_digit c.rest) _
                              (raises line col invalid_escape)
                              (λ e. consume_digits-Ensures is_octal_digit 3 c refl)
                              λ e. (refl, refl)

    -- An escape in a string literal is read on one line, past the backslash at least.
    consume_escape_sequence-Ensures :
        (c : Cursor)
        → holds_at 0 (λ d. d == b'\\') c.rest ≡ true
        → Ensures line col (Advances c) (consume_escape_sequence u line col c)
    unfolding consume_escape_sequence
    consume_escape_sequence-Ensures c e =
        Ensures-weaken line col (ReachesInLine (skip 1 c)) (Advances c) _
          (λ b reached. Advances-trans (skip-Advances_one (λ d. d == b'\\') c refl e) reached)
          (consume_escape-Ensures (skip 1 c))

    plain_character :
        (c : Cursor)
        → not (holds_at 0 (λ d. true) c.rest) ≡ false
        → holds_at 0 is_newline c.rest ≡ false
        → Advances c (skip 1 c)
    unfolding holds_at
    plain_character c some_left other =
        skip-Advances_one (λ d. not (is_newline d)) c refl (left c.rest some_left other)
      where
        left :
            (t : Text)
            → not (holds_at 0 (λ d. true) t) ≡ false
            → holds_at 0 is_newline t ≡ false
            → holds_at 0 (λ d. not (is_newline d)) t ≡ true
        left [] h k = cc
        left (d ∷ t) h k = rw k

    -- Enough fuel for the loop of a string literal is one unit for each character left.
    find_quote-Ensures :
        (fuel : ℕ) (c : Cursor)
        → length c.rest ≤ fuel
        → Ensures line col (ReachesInLine c) (find_quote u fuel line col c)
    unfolding find_quote
    find_quote-Ensures zero c h = rw (nothing_left c.rest h) (refl, refl)
    find_quote-Ensures (suc fuel) c h =
        let R = ReachesInLine c in
        let onward = λ (b : Cursor) (p : Advances c b).
          Ensures-weaken line col (ReachesInLine b) R (find_quote u fuel line col b)
            (λ d reached. ReachesInLine-trans p.reaches reached)
            (find_quote-Ensures fuel b (let shorter = p.shorter in omega arith)) in
        Ensures-if_raises line col R _ unterminated_string _ λ some_left.
          Ensures-if line col R (holds_at 0 (λ d. d == b'"') c.rest) _ _
            (λ e. (skip-Advances_one (λ d. d == b'"') c refl e).reaches)
            λ _.
              Ensures-if_raises line col R (holds_at 0 is_newline c.rest) unterminated_string _
                λ other.
                  Ensures-if line col R (holds_at 0 (λ d. d == b'\\') c.rest) _ _
                    (λ e.
                      Ensures-bind line col (Advances c) R (consume_escape_sequence u line col c)
                        (find_quote u fuel line col) (consume_escape_sequence-Ensures c e) onward)
                    (λ _. onward (skip 1 c) (plain_character c some_left other))

module _ (u : Unicode) (no_digit : u.is_digit 10 ≡ false) where
  pub scan_string_literal-Scans :
      (a : Cursor) → holds_at 0 (λ d. d == b'"') a.rest ≡ true → Scans a (scan_string_literal u a)
  unfolding scan_string_literal
  scan_string_literal-Scans a e =
      let p = skip-Advances_one (λ d. d == b'"') a refl e in
      Ensures-bind a.line a.col (ReachesInLine (skip 1 a)) (Spans a)
        (find_quote u (length a.rest) a.line a.col (skip 1 a))
        (λ stop. done (token string_literal a stop))
        (find_quote-Ensures a.line a.col u no_digit (length a.rest) (skip 1 a)
          (let shorter = p.shorter in omega arith))
        (λ stop reached. token-Spans_line string_literal a stop (Advances-trans p reached))
