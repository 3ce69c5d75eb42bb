-- ===== src/Go/Tokenizer/Places.antt =====
-- The positions of the tokens of src/project_knowledge_mcp/project_analyzer/go/go_tokenizer.py,
-- counted in the text.
use gitlab_knowledege.Common.{
  ℕ, ◌+◌, ◌≡◌, refl, ◌∙◌, Bool, false, [], ◌∷◌, ◌++◌, length, arith, suc, Text, ◌||◌, Bool-cases,
  inl, inr, if◌then◌else◌, ◌==◌,
}
use gitlab_knowledege.Go.Cursor.Moves.{
  line_after, column_after, line_after-append, column_after-append,
}
use gitlab_knowledege.Go.Literals.{Unicode}
use gitlab_knowledege.Go.Literals.Spans.{IsLawful}
use gitlab_knowledege.Go.Tokenizer.{Stream, stops, yields, fails, cut_off, tokenize_go_source}
use gitlab_knowledege.Go.Tokenizer.Reads.{ReadsFrom, tokenize_go_source-ReadsFrom}

-- The number of line ends in a text, and what stands behind the last of them.
abbrev pub newlines : Text → ℕ
newlines [] = 0
newlines (c ∷ t) = if c == 10 then suc (newlines t) else newlines t

abbrev pub has_newline : Text → Bool
has_newline [] = false
has_newline (c ∷ t) = (c == 10) || has_newline t

abbrev pub last_line : Text → Text
last_line [] = []
last_line (c ∷ t) = if has_newline (c ∷ t) then last_line t else c ∷ t

-- The line and the column at which a text goes on behind `before`.
abbrev pub IsBehind : Text → ℕ → ℕ → Type 0
IsBehind before line col = (line ≡ 1 + newlines before) × (col ≡ 1 + length (last_line before))

-- Each token, and the error if there is one, carries the position behind the tokens before it.
abbrev pub Placed : Text → Stream → Type 0
Placed before stops = Unit
Placed before cut_off = Unit
Placed before (yields tok s) = IsBehind before tok.line tok.column × Placed (before ++ tok.text) s
Placed before (fails line col r) = IsBehind before line col

line_after-newlines : (t : Text) (l : ℕ) → line_after t l ≡ l + newlines t
line_after-newlines [] l = omega arith
line_after-newlines (c ∷ t) l = elim (Bool-cases (c == 10)) [
  | inl e ↦ rw e (line_after-newlines t (l + 1) ∙ omega arith)
  | inr e ↦ rw e (line_after-newlines t l)
]

last_line_whole : (t : Text) → has_newline t ≡ false → last_line t ≡ t
last_line_whole [] e = refl
last_line_whole (c ∷ t) e = rw e

column_after-last_line :
    (t : Text) (k : ℕ)
    → column_after t k ≡ (if has_newline t then 1 + length (last_line t) else k + length t)
column_after-last_line [] k = omega arith
column_after-last_line (c ∷ t) k = elim (Bool-cases (c == 10)) [
  | inl e ↦ elim (Bool-cases (has_newline t)) [
    | inl f ↦ rw e (rw f at (column_after-last_line t 1))
    | inr f ↦ rw (e, last_line_whole t f) (rw f at (column_after-last_line t 1))
  ]
  | inr e ↦ elim (Bool-cases (has_newline t)) [
    | inl f ↦ rw (e, f) (rw f at (column_after-last_line t (k + 1)))
    | inr f ↦ rw (e, f) (rw f at (column_after-last_line t (k + 1)) ∙ omega arith)
  ]
]

module _ (before : Text) where
  behind : IsBehind before (line_after before 1) (column_after before 1)
  behind = (
    line_after-newlines before 1,
    elim (Bool-cases (has_newline before)) [
      | inl e ↦ rw e at (column_after-last_line before 1)
      | inr e ↦
          let counted = rw e at (column_after-last_line before 1) in
          rw (last_line_whole before e) counted
    ],
  )

  IsBehind-of :
      {line col : ℕ}
      → line ≡ line_after before 1
      → col ≡ column_after before 1
      → IsBehind before line col
  IsBehind-of p q = let (l, c) = behind in (p ∙ l, q ∙ c)

reads_Placed :
    (before t : Text) (s : Stream)
    → ReadsFrom (line_after before 1) (column_after before 1) t s
    → Placed before s
reads_Placed before t stops r = tt
reads_Placed before t cut_off r = tt
reads_Placed before t (fails l c x) (p, q, h) = IsBehind-of before p q
reads_Placed before t (yields tok s) (rest, e, l, c, shorter, one, r) = (
  IsBehind-of before l c,
  reads_Placed (before ++ tok.text) rest s
      (rw (line_after-append before tok.text 1, column_after-append before tok.text 1) r),
)

-- For every text: each token, and the error if there is one, carries as its line one more than
-- the number of newlines in the tokens before it, and as its column one more than the number of
-- characters behind the last of these newlines.
pub tokenize_go_source-Placed :
    (u : Unicode) (lawful : IsLawful u) (text : Text) → Placed [] (tokenize_go_source u text)
tokenize_go_source-Placed u lawful text =
    reads_Placed [] text (tokenize_go_source u text) (tokenize_go_source-ReadsFrom u lawful text)
