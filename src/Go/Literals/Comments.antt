-- ===== src/Go/Literals/Comments.antt =====
-- The scans of comments and raw strings of
-- src/project_knowledge_mcp/project_analyzer/go/go_tokenizer.py.
use gitlab_knowledege.Common.{
  ℕ, ◌+◌, ◌<◌, ◌≡◌, refl, true, false, not, [], ◌∷◌, length, arith, Text, some, ◌==◌, Bool-cases,
  Option-cases, inl, inr, ◌&&◌, drop,
}
use gitlab_knowledege.Go.Tokens.{GoTokenKind, block_comment}
use gitlab_knowledege.Go.Cursor.{Cursor, skip, holds_at}
use gitlab_knowledege.Go.Cursor.Moves.{
  Moves-length, Reaches, Reaches-trans, Advances, Advances-trans, skip-Advances, Clear-one,
  Clear-two, skip_run-ReachesInLine,
}
use gitlab_knowledege.Go.Literals.{
  scan_line_comment, find_comment_end, scan_block_comment, find_backtick, scan_raw_string_literal,
  is_newline,
}
use gitlab_knowledege.Go.Literals.Spans.{Scans, token-Spans, token-Spans_line, is_multiline}

pub scan_line_comment-Scans :
    (a : Cursor)
    → holds_at 0 (λ d. d == b'/') a.rest ≡ true
    → holds_at 1 (λ d. d == b'/') a.rest ≡ true
    → Scans a (scan_line_comment a)
unfolding scan_line_comment
scan_line_comment-Scans a h k = token-Spans_line _ a _ (
    Advances-trans (skip-Advances 1 a (Clear-two _ _ a.rest refl refl h k))
      (skip_run-ReachesInLine (λ d. not (is_newline d)) (skip 2 a) λ d e. ground arith))

-- One character, which ends the line or does not.
one_Reaches :
    (c : ℕ) (t : Text) (line col : ℕ)
    → (c == 10) ≡ true
    → Reaches
        (record { rest = c ∷ t; line = line; col = col })
        (record { rest = t; line = line + 1; col = 1 })
one_Reaches c t line col e = (c ∷ [], record { rest = refl; line = rw e; col = rw e })

one_Reaches_in_line :
    (c : ℕ) (t : Text) (line col : ℕ)
    → (c == 10) ≡ false
    → Reaches
        (record { rest = c ∷ t; line = line; col = col })
        (record { rest = t; line = line; col = col + 1 })
one_Reaches_in_line c t line col e = (c ∷ [], record { rest = refl; line = rw e; col = rw e })

find_backtick-Reaches :
    (t : Text) (line col : ℕ) (b : Cursor)
    → find_backtick t line col ≡ some b
    → Reaches (record { rest = t; line = line; col = col }) b
unfolding find_backtick
find_backtick-Reaches [] line col b h = cc
find_backtick-Reaches (c ∷ t) line col b h = elim (Bool-cases (c == b'`')) [
  | inl quote ↦
      let same : record { rest = t; line = line; col = col + 1 } ≡ b = ground arith in
      rw (← same) (one_Reaches_in_line c t line col (ground arith))
  | inr other ↦ elim (Bool-cases (c == 10)) [
    | inl e ↦
        Reaches-trans (one_Reaches c t line col e)
          (find_backtick-Reaches t (line + 1) 1 b (ground arith))
    | inr e ↦
        Reaches-trans (one_Reaches_in_line c t line col e)
          (find_backtick-Reaches t line (col + 1) b (ground arith))
  ]
]

star_slash :
    (c : ℕ) (t : Text) (line col : ℕ)
    → ((c == b'*') && holds_at 0 (λ d. d == b'/') t) ≡ true
    → Reaches
        (record { rest = c ∷ t; line = line; col = col })
        (record { rest = drop 1 t; line = line; col = col + 2 })
unfolding holds_at
star_slash c [] line col h = ground arith
star_slash c (d ∷ t) line col h =
    let e : (c == 10) ≡ false = ground arith in
    let f : (d == 10) ≡ false = ground arith in
    (c ∷ d ∷ [], record { rest = refl; line = rw (e, f); col = rw (e, f) (omega arith) })

find_comment_end-Reaches :
    (t : Text) (line col : ℕ) (b : Cursor)
    → find_comment_end t line col ≡ some b
    → Reaches (record { rest = t; line = line; col = col }) b
unfolding find_comment_end
find_comment_end-Reaches [] line col b h = cc
find_comment_end-Reaches (c ∷ t) line col b h =
    elim (Bool-cases ((c == b'*') && holds_at 0 (λ d. d == b'/') t)) [
      | inl stop ↦
          let same : record { rest = drop 1 t; line = line; col = col + 2 } ≡ b = ground arith in
          rw (← same) (star_slash c t line col stop)
      | inr other ↦ elim (Bool-cases (c == 10)) [
        | inl e ↦
            Reaches-trans (one_Reaches c t line col e)
              (find_comment_end-Reaches t (line + 1) 1 b (ground arith))
        | inr e ↦
            Reaches-trans (one_Reaches_in_line c t line col e)
              (find_comment_end-Reaches t line (col + 1) b (ground arith))
      ]
    ]

-- What follows a first stretch on one line.
opened :
    (a b c : Cursor) → Advances a b → Reaches b c → Reaches a c × (length c.rest < length a.rest)
opened a b c p (t, m) =
    let (s, q, one) = p.reaches in
    let shown = Moves-length m in let h = p.shorter in (Reaches-trans (s, q) (t, m), omega arith)

pub scan_block_comment-Scans :
    (a : Cursor)
    → holds_at 0 (λ d. d == b'/') a.rest ≡ true
    → holds_at 1 (λ d. d == b'*') a.rest ≡ true
    → Scans a (scan_block_comment a)
unfolding scan_block_comment
scan_block_comment-Scans a h k =
    let c = skip 2 a in
    elim (Option-cases (find_comment_end c.rest c.line c.col)) [
      | inl e ↦ rw (e, scan_block_comment) (refl, refl)
      | inr (b, e) ↦
          let (reaches, shorter) =
            opened a c b (skip-Advances 1 a (Clear-two _ _ a.rest refl refl h k))
              (find_comment_end-Reaches c.rest c.line c.col b e) in
          rw (e, scan_block_comment) (token-Spans block_comment a b reaches shorter refl)
    ]

pub scan_raw_string_literal-Scans :
    (kind : GoTokenKind) (a : Cursor)
    → is_multiline kind ≡ true
    → holds_at 0 (λ d. d == b'`') a.rest ≡ true
    → Scans a (scan_raw_string_literal kind a)
unfolding scan_raw_string_literal
scan_raw_string_literal-Scans kind a multi h =
    let c = skip 1 a in
    elim (Option-cases (find_backtick c.rest c.line c.col)) [
      | inl e ↦ rw (e, scan_raw_string_literal) (refl, refl)
      | inr (b, e) ↦
          let (reaches, shorter) =
            opened a c b (skip-Advances 0 a (Clear-one _ a.rest refl h))
              (find_backtick-Reaches c.rest c.line c.col b e) in
          rw (e, scan_raw_string_literal) (token-Spans kind a b reaches shorter multi)
    ]
