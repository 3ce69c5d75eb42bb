-- ===== src/Go/Tokenizer/Reads.antt =====
-- The token streams of src/project_knowledge_mcp/project_analyzer/go/go_tokenizer.py against the
-- text that they are read from.
use gitlab_knowledege.Common.{
  ℕ, ◌<◌, ◌≤◌, ◌≡◌, refl, sym, ap, ◌∙◌, Bool, true, false, [], ◌∷◌, ◌++◌, length, arith, suc, Text,
  zero, Bool-cases, inl, inr, ◌↔◌,
}
use mathlib.Core.List.{append_assoc}
use gitlab_knowledege.Go.Tokens.{GoToken, is_trivia}
use gitlab_knowledege.Go.Cursor.{Cursor, Scan, done, raises, out_of_fuel, holds_at}
use gitlab_knowledege.Go.Cursor.Moves.{OneLine, line_after, column_after}
use gitlab_knowledege.Go.Literals.{Unicode}
use gitlab_knowledege.Go.Literals.Spans.{Scans, is_multiline, IsLawful}
use gitlab_knowledege.Go.Tokenizer.{
  State, Stream, stops, yields, fails, cut_off, advance, maintain_brace_stack, continue, scan_one,
  tokenize, tokenize_go_source,
}
use gitlab_knowledege.Go.Tokenizer.Scans.{scan_one-Scans}

-- A stream that reads the text `t`, which starts at this line and column.
abbrev pub ReadsFrom : ℕ → ℕ → Text → Stream → Type 0
ReadsFrom line col t stops = t ≡ []
ReadsFrom line col t (yields tok s) =
    (rest : Text) × (t ≡ tok.text ++ rest)
    × (tok.line ≡ line)
    × (tok.column ≡ col)
    × (length rest < length t)
    × (is_multiline tok.kind ≡ false → OneLine tok.text)
    × ReadsFrom (line_after tok.text line) (column_after tok.text col) rest s
ReadsFrom line col t (fails l c r) = (l ≡ line) × (c ≡ col) × (0 < length t)
ReadsFrom line col t cut_off = ⊥

advance-cursor : (s : State) (tok : GoToken) (c : Cursor) → (advance s tok c).cursor ≡ c
unfolding advance maintain_brace_stack
advance-cursor s tok c = elim (Bool-cases (is_trivia tok.kind)) [
  | inl e ↦ rw (e, advance)
  | inr e ↦ rw (e, advance)
]

something_left : (t : Text) → holds_at 0 (λ d. true) t ≡ true → 0 < length t
unfolding holds_at
something_left [] e = cc
something_left (c ∷ t) e = omega arith

nothing_left : (t : Text) → holds_at 0 (λ d. true) t ≡ false → t ≡ []
unfolding holds_at
nothing_left [] e = refl
nothing_left (c ∷ t) e = cc

module _ (u : Unicode) (lawful : IsLawful u) where
  Reads : State → Stream → Type 0
  Reads s = ReadsFrom s.cursor.line s.cursor.col s.cursor.rest

  continue-Reads :
      (s : State) (m : Scan (GoToken × Cursor)) (go_on : State → Stream)
      → 0 < length s.cursor.rest
      → Scans s.cursor m
      → ((s' : State) → length s'.cursor.rest < length s.cursor.rest → Reads s' (go_on s'))
      → Reads s (continue s m go_on)
  unfolding continue Reads
  continue-Reads s (done (tok, c)) go_on h p k =
      let next = k (advance s tok c) (rw (advance-cursor s tok c) p.filled) in
      let next' : ReadsFrom c.line c.col c.rest (go_on (advance s tok c)) =
        rw (advance-cursor s tok c) at next in
      (
        c.rest,
        p.moves.rest,
        p.line,
        p.column,
        p.filled,
        p.one_line,
        rw (← p.moves.line, ← p.moves.col) next',
      )
  continue-Reads s (raises l c r) go_on h (p, q) k = (p, q, h)
  continue-Reads s out_of_fuel go_on h p k = absurd p

  tokenize-Reads :
      (fuel : ℕ) (s : State) → length s.cursor.rest ≤ fuel → Reads s (tokenize u fuel s)
  unfolding tokenize Reads
  tokenize-Reads zero s h = elim (Bool-cases (holds_at 0 (λ d. true) s.cursor.rest)) [
    | inl e ↦ let some_left = something_left s.cursor.rest e in absurd (omega arith)
    | inr e ↦ rw (e, tokenize) (nothing_left s.cursor.rest e)
  ]
  tokenize-Reads (suc fuel) s h = elim (Bool-cases (holds_at 0 (λ d. true) s.cursor.rest)) [
    | inl e ↦
        rw (e, tokenize)
          (continue-Reads s (scan_one u s) (tokenize u fuel) (something_left s.cursor.rest e)
            (scan_one-Scans u lawful s e) (λ s' shorter. tokenize-Reads fuel s' (omega arith)))
    | inr e ↦ rw (e, tokenize) (nothing_left s.cursor.rest e)
  ]

  -- What the claims about a whole text come from.
  pub tokenize_go_source-ReadsFrom : (text : Text) → ReadsFrom 1 1 text (tokenize_go_source u text)
  unfolding tokenize_go_source Reads
  tokenize_go_source-ReadsFrom text = tokenize-Reads (length text) _ (omega arith)

-- The texts of the tokens, one after the other.
abbrev pub texts : Stream → Text
texts (yields tok s) = tok.text ++ texts s
texts _ = []

abbrev pub has_failed : Stream → Bool
has_failed stops = false
has_failed (yields tok s) = has_failed s
has_failed (fails l c r) = true
has_failed cut_off = true

-- The stream is not cut off, and it has no more than `n` tokens.
abbrev pub EndsWithin : ℕ → Stream → Type 0
EndsWithin n stops = Unit
EndsWithin n (fails l c r) = Unit
EndsWithin n cut_off = ⊥
EndsWithin zero (yields tok s) = ⊥
EndsWithin (suc n) (yields tok s) = EndsWithin n s

abbrev pub IsOneLine : GoToken → Type 0
IsOneLine tok = is_multiline tok.kind ≡ false → OneLine tok.text

abbrev pub AllTokens : (GoToken → Type 0) → Stream → Type 0
AllTokens P (yields tok s) = P tok × AllTokens P s
AllTokens P _ = Unit

reads_EndsWithin :
    (n line col : ℕ) (t : Text) (s : Stream)
    → length t ≤ n
    → ReadsFrom line col t s
    → EndsWithin n s
reads_EndsWithin n line col t stops h r = tt
reads_EndsWithin n line col t (fails l c x) h r = tt
reads_EndsWithin n line col t cut_off h r = absurd r
reads_EndsWithin zero line col t (yields tok s) h (rest, e, l, c, shorter, one, r) =
    absurd (omega arith)
reads_EndsWithin (suc n) line col t (yields tok s) h (rest, e, l, c, shorter, one, r) =
    reads_EndsWithin n _ _ rest s (omega arith) r

reads_lossless :
    (line col : ℕ) (t : Text) (s : Stream)
    → ReadsFrom line col t s
    → (left : Text) × (t ≡ texts s ++ left) × ((left ≡ []) ↔ (has_failed s ≡ false))
reads_lossless line col t stops r = ([], r, (λ e. refl, λ e. refl))
reads_lossless line col t (fails l c x) (p, q, some_left) =
    (t, refl, ((λ (e : t ≡ []). let h = rw e at some_left in absurd (omega arith)), λ e. cc))
reads_lossless line col t cut_off r = absurd r
reads_lossless line col t (yields tok s) (rest, e, l, c, shorter, one, r) =
    let (left, split, ends) =
      reads_lossless (line_after tok.text line) (column_after tok.text col) rest s r in
    (left, e ∙ ap (λ x. tok.text ++ x) split ∙ sym (append_assoc tok.text (texts s) left), ends)

reads_IsOneLine :
    (line col : ℕ) (t : Text) (s : Stream) → ReadsFrom line col t s → AllTokens IsOneLine s
reads_IsOneLine line col t stops r = tt
reads_IsOneLine line col t (fails l c x) r = tt
reads_IsOneLine line col t cut_off r = tt
reads_IsOneLine line col t (yields tok s) (rest, e, l, c, shorter, one, r) =
    (one, reads_IsOneLine (line_after tok.text line) (column_after tok.text col) rest s r)

module _ (u : Unicode) (lawful : IsLawful u) (text : Text) where
  -- For every text the stream ends, with or without an error, within its fuel, and has no more
  -- tokens than the text has characters.
  pub tokenize_go_source-EndsWithin : EndsWithin (length text) (tokenize_go_source u text)
  tokenize_go_source-EndsWithin =
      reads_EndsWithin (length text) 1 1 text _ (omega arith)
        (tokenize_go_source-ReadsFrom u lawful text)

  -- For every text: it is the texts of the tokens, one after the other, and then what is left,
  -- and nothing is left exactly if no error ended the stream.
  pub texts-tokenize_go_source :
      let s = tokenize_go_source u text in
      (left : Text) × (text ≡ texts s ++ left) × ((left ≡ []) ↔ (has_failed s ≡ false))
  texts-tokenize_go_source = reads_lossless 1 1 text _ (tokenize_go_source-ReadsFrom u lawful text)

  -- For every text: no token but a newline, a block comment, a raw string or a struct tag has a
  -- newline in its text.
  pub tokenize_go_source-IsOneLine : AllTokens IsOneLine (tokenize_go_source u text)
  tokenize_go_source-IsOneLine =
      reads_IsOneLine 1 1 text _ (tokenize_go_source-ReadsFrom u lawful text)
