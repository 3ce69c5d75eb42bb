-- ===== src/Go/Literals/Numbers.antt =====
-- The scan of a number of src/project_knowledge_mcp/project_analyzer/go/go_tokenizer.py.
use gitlab_knowledege.Common.{
  ℕ, ◌<◌, ◌≡◌, ◌≢◌, refl, Bool, true, false, [], ◌∷◌, arith, Text, ◌==◌, Bool-cases, inl, inr,
  among, ◌&&◌, ◌||◌, codes, if◌then◌else◌, ◌⊎◌,
}
use gitlab_knowledege.Go.Tokens.{number_literal}
use gitlab_knowledege.Go.Cursor.{Cursor, skip, holds_at, skip_run, run_length}
use gitlab_knowledege.Go.Cursor.Moves.{
  ReachesInLine, ReachesInLine-trans, ReachesInLine-same, Advances, Advances-trans, Advances-after,
  skip-Advances, Clear-two, skip_run-ReachesInLine, run_length-Clear, length-drop,
  skip-ReachesInLine,
}
use gitlab_knowledege.Go.Literals.{
  Unicode, is_hex_digit, number_digit, has_prefix, has_hex_prefix, skip_prefix, skip_fraction,
  skip_sign, skip_exponent, skip_imaginary, scan_number,
}
use gitlab_knowledege.Go.Literals.Spans.{Scans, token-Spans_line}
use gitlab_knowledege.Go.Literals.Strings.{skip-Advances_one}

-- A step that is made, or not.
when_ReachesInLine :
    (b : Bool) (c c' : Cursor)
    → (b ≡ true → ReachesInLine c c')
    → ReachesInLine c (if b then c' else c)
when_ReachesInLine true c c' h = h refl
when_ReachesInLine false c c' h = ReachesInLine-same c

-- A run whose first character passes the test.
run_length-pos : (test : ℕ → Bool) (t : Text) → holds_at 0 test t ≡ true → 0 < run_length test t
unfolding run_length holds_at
run_length-pos test [] e = cc
run_length-pos test (d ∷ t) e = rw e (omega arith)

run_length_none : (test : ℕ → Bool) (t : Text) → holds_at 0 test t ≡ false → run_length test t ≡ 0
unfolding run_length holds_at
run_length_none test [] e = refl
run_length_none test (d ∷ t) e = rw e

skip_run_none :
    (test : ℕ → Bool) (c : Cursor) → holds_at 0 test c.rest ≡ false → skip_run test c ≡ skip 0 c
unfolding skip_run
skip_run_none test c e = rw (run_length_none test c.rest e)

pub skip_run-Advances :
    (test : ℕ → Bool) (c : Cursor)
    → ((d : ℕ) → test d ≡ true → d ≢ 10)
    → holds_at 0 test c.rest ≡ true
    → Advances c (skip_run test c)
unfolding skip_run skip
skip_run-Advances test c h e = record {
  reaches = skip_run-ReachesInLine test c h;
  shorter =
      let counted = run_length-pos test c.rest e in
      let shown = length-drop (run_length test c.rest) c.rest (run_length-Clear test c.rest h) in
      omega arith;
}

-- A test that a newline fails, as the loops take it.
pub not_newline : (test : ℕ → Bool) → test 10 ≡ false → (d : ℕ) → test d ≡ true → d ≢ 10
not_newline test h d e same = let e' = rw same at e in cc

module _ (u : Unicode) (no_digit : u.is_digit 10 ≡ false) where
  number_digit-newline : (is_hex : Bool) → number_digit u is_hex 10 ≡ false
  unfolding number_digit is_hex_digit
  number_digit-newline true = rw no_digit
  number_digit-newline false = rw no_digit

  digits-ReachesInLine :
      (is_hex : Bool) (c : Cursor) → ReachesInLine c (skip_run (number_digit u is_hex) c)
  digits-ReachesInLine is_hex c =
      skip_run-ReachesInLine (number_digit u is_hex) c
        (not_newline (number_digit u is_hex) (number_digit-newline is_hex))

  skip_prefix-Advances : (c : Cursor) → has_prefix u c.rest ≡ true → Advances c (skip 2 c)
  unfolding has_prefix
  skip_prefix-Advances c e = skip-Advances 1 c (
      Clear-two (λ d. d == b'0') (λ d. among d (codes "xXoObB")) c.rest refl refl (ground arith)
        (ground arith))

  dot-Advances : (c : Cursor) → holds_at 0 (λ d. d == b'.') c.rest ≡ true → Advances c (skip 1 c)
  dot-Advances c e = skip-Advances_one (λ d. d == b'.') c refl e

  skip_fraction-ReachesInLine :
      (is_hex : Bool) (c : Cursor) → ReachesInLine c (skip_fraction u is_hex c)
  unfolding skip_fraction
  skip_fraction-ReachesInLine is_hex c = elim (Bool-cases (holds_at 0 (λ d. d == b'.') c.rest)) [
    | inr e ↦ rw (e, skip_fraction) (ReachesInLine-same c)
    | inl e ↦
        let p = dot-Advances c e in
        rw (e, skip_fraction)
          (branches _ _ (ReachesInLine-trans p.reaches (digits-ReachesInLine is_hex (skip 1 c)))
            p.reaches)
  ]
    where
      branches :
          (b b' : Bool) {x y : Cursor}
          → ReachesInLine c x
          → ReachesInLine c y
          → ReachesInLine c (if b then x else if b' then c else y)
      branches true b' h k = h
      branches false true h k = ReachesInLine-same c
      branches false false h k = k

  skip_exponent-ReachesInLine :
      (is_hex : Bool) (c : Cursor) → ReachesInLine c (skip_exponent u is_hex c)
  unfolding skip_exponent skip_sign
  skip_exponent-ReachesInLine is_hex c = when_ReachesInLine _ c _ λ e.
      ReachesInLine-trans (skip-Advances_one (exponent is_hex) c (no_newline is_hex) e).reaches (
        ReachesInLine-trans
          (when_ReachesInLine _ (skip 1 c) _
            λ e'. (skip-Advances_one (λ d. among d (codes "+-")) (skip 1 c) refl e').reaches)
          (skip_run-ReachesInLine test _ (not_newline test (rw no_digit))))
    where
      exponent : Bool → ℕ → Bool
      exponent hex d = among d (if hex then codes "pP" else codes "eE")

      no_newline : (hex : Bool) → exponent hex 10 ≡ false
      no_newline true = refl
      no_newline false = refl

      test : ℕ → Bool
      test d = u.is_digit d || (d == b'_')

  skip_imaginary-ReachesInLine : (c : Cursor) → ReachesInLine c (skip_imaginary u c)
  unfolding skip_imaginary
  skip_imaginary-ReachesInLine c =
      when_ReachesInLine _ c (skip 1 c) λ e. (skip-Advances_one (λ d. d == b'i') c refl e).reaches

  -- What a number starts with.
  abbrev pub Starts : Cursor → Type 0
  Starts c =
      (holds_at 0 u.is_digit c.rest ≡ true)
      ⊎ ((holds_at 0 (λ d. d == b'.') c.rest ≡ true) × (holds_at 1 u.is_digit c.rest ≡ true))

  digit-number_digit :
      (is_hex : Bool) (t : Text)
      → holds_at 0 u.is_digit t ≡ true
      → holds_at 0 (number_digit u is_hex) t ≡ true
  unfolding holds_at number_digit
  digit-number_digit is_hex [] h = cc
  digit-number_digit is_hex (d ∷ t) h = rw h

  widened :
      (is_hex : Bool) (t : Text)
      → holds_at 1 u.is_digit t ≡ true
      → holds_at 1 (λ d. u.is_digit d || (is_hex && is_hex_digit u d)) t ≡ true
  unfolding holds_at
  widened is_hex [] h = cc
  widened is_hex (c ∷ []) h = cc
  widened is_hex (c ∷ d ∷ t) h = rw h

  -- A dot before a digit is read, whatever the digits are.
  dot_digit-Advances :
      (is_hex : Bool) (c : Cursor)
      → holds_at 0 (λ d. d == b'.') c.rest ≡ true
      → holds_at 1 u.is_digit c.rest ≡ true
      → Advances c (skip_fraction u is_hex c)
  unfolding skip_fraction
  dot_digit-Advances is_hex c e f =
      rw (e, widened is_hex c.rest f, skip_fraction)
        (Advances-trans (dot-Advances c e) (digits-ReachesInLine is_hex (skip 1 c)))

  -- The first character of a number is read with the prefix, the digits or the fraction.
  digits-Advances :
      (is_hex : Bool) (c : Cursor)
      → holds_at 0 u.is_digit c.rest ≡ true
      → Advances c (skip_run (number_digit u is_hex) c)
  digits-Advances is_hex c e =
      skip_run-Advances (number_digit u is_hex) c
        (not_newline (number_digit u is_hex) (number_digit-newline is_hex))
        (digit-number_digit is_hex c.rest e)

  -- Up to the end of the fraction.
  mantissa-Advances :
      (is_hex : Bool) (c : Cursor)
      → Starts c
      → Advances c (skip_fraction u is_hex (skip_run (number_digit u is_hex) (skip_prefix u c)))
  unfolding skip_prefix skip
  mantissa-Advances is_hex c starts = elim (Bool-cases (has_prefix u c.rest)) [
    | inl e ↦
        rw (e, skip_prefix)
          (Advances-trans
            (Advances-trans (skip_prefix-Advances c e) (digits-ReachesInLine is_hex (skip 2 c)))
            (skip_fraction-ReachesInLine is_hex (skip_run (number_digit u is_hex) (skip 2 c))))
    | inr e ↦ rw (e, skip_prefix) (plain starts)
  ]
    where
      plain : Starts c → Advances c (skip_fraction u is_hex (skip_run (number_digit u is_hex) c))
      plain (inl digit) =
          Advances-trans (digits-Advances is_hex c digit)
            (skip_fraction-ReachesInLine is_hex (skip_run (number_digit u is_hex) c))
      plain (inr (dot, digit)) = elim (Bool-cases (holds_at 0 (number_digit u is_hex) c.rest)) [
        | inl e ↦
            Advances-trans
              (skip_run-Advances (number_digit u is_hex) c
                (not_newline (number_digit u is_hex) (number_digit-newline is_hex)) e)
              (skip_fraction-ReachesInLine is_hex (skip_run (number_digit u is_hex) c))
        | inr e ↦ rw (skip_run_none (number_digit u is_hex) c e) (
            Advances-after (skip-ReachesInLine 0 c tt)
              (dot_digit-Advances is_hex (skip 0 c) dot digit))
      ]

  pub scan_number-Scans : (a : Cursor) → Starts a → Scans a (scan_number u a)
  unfolding scan_number
  scan_number-Scans a starts =
      let is_hex = has_hex_prefix u a.rest in
      token-Spans_line number_literal a _ (
        Advances-trans
          (Advances-trans (mantissa-Advances is_hex a starts)
            (skip_exponent-ReachesInLine is_hex _))
          (skip_imaginary-ReachesInLine _))
