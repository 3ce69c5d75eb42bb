-- ===== src/Go/Cursor/Moves.antt =====
-- Movements of the scanner over a stretch of the text, of
-- src/project_knowledge_mcp/project_analyzer/go/go_tokenizer.py, against the position that the
-- stretch has by itself.
use gitlab_knowledege.Common.{
  ℕ, zero, suc, ◌+◌, ◌-◌, ◌<◌, ◌≡◌, ◌≢◌, refl, sym, ap, ◌∙◌, Bool, true, false, [], ◌∷◌, ◌++◌, Text,
  length, length-append, take, drop, arith, if◌then◌else◌, ◌==◌, ==_of_ne, All, Bool-cases, inl,
  inr,
}
use mathlib.Core.List.{append_assoc}
use gitlab_knowledege.Go.Cursor.{Cursor, skip, slice, holds_at, run_length, skip_run}

-- The line and the column after a text that starts at a given line, or column.
abbrev pub line_after : Text → ℕ → ℕ
line_after [] l = l
line_after (c ∷ t) l = line_after t (if c == 10 then l + 1 else l)

abbrev pub column_after : Text → ℕ → ℕ
column_after [] k = k
column_after (c ∷ t) k = column_after t (if c == 10 then 1 else k + 1)

abbrev pub OneLine : Text → Type 0
OneLine t = All (λ c. c ≢ 10) t

-- From `a` the scanner has read `t` and is at `b`.
pub record Moves (t : Text) (a b : Cursor) : Type 0 where
  pub rest : a.rest ≡ t ++ b.rest
  pub line : b.line ≡ line_after t a.line
  pub col : b.col ≡ column_after t a.col

abbrev pub Reaches : Cursor → Cursor → Type 0
Reaches a b = (t : Text) × Moves t a b

-- The same on one line.
abbrev pub ReachesInLine : Cursor → Cursor → Type 0
ReachesInLine a b = (t : Text) × Moves t a b × OneLine t

pub line_after-append : (s t : Text) (l : ℕ) → line_after (s ++ t) l ≡ line_after t (line_after s l)
line_after-append [] t l = refl
line_after-append (c ∷ s) t l = line_after-append s t (if c == 10 then l + 1 else l)

pub column_after-append :
    (s t : Text) (k : ℕ) → column_after (s ++ t) k ≡ column_after t (column_after s k)
column_after-append [] t k = refl
column_after-append (c ∷ s) t k = column_after-append s t (if c == 10 then 1 else k + 1)

pub OneLine-append : (s t : Text) → OneLine s → OneLine t → OneLine (s ++ t)
OneLine-append [] t p q = q
OneLine-append (c ∷ s) t (h, p) q = (h, OneLine-append s t p q)

pub Moves-append : {s t : Text} {a b c : Cursor} → Moves s a b → Moves t b c → Moves (s ++ t) a c
Moves-append {s} {t} {a} {b} {c} p q = record {
  rest = p.rest ∙ ap (λ r. s ++ r) q.rest ∙ sym (append_assoc s t c.rest);
  line = rw (q.line, p.line) (sym (line_after-append s t a.line));
  col = rw (q.col, p.col) (sym (column_after-append s t a.col));
}

pub Reaches-trans : {a b c : Cursor} → Reaches a b → Reaches b c → Reaches a c
Reaches-trans (s, p) (t, q) = (s ++ t, Moves-append p q)

pub ReachesInLine-trans :
    {a b c : Cursor} → ReachesInLine a b → ReachesInLine b c → ReachesInLine a c
ReachesInLine-trans (s, p, x) (t, q, y) = (s ++ t, Moves-append p q, OneLine-append s t x y)

pub ReachesInLine-same : (a : Cursor) → ReachesInLine a a
ReachesInLine-same a = ([], record { rest = refl; line = refl; col = refl }, tt)

-- The next `n` characters are there, and none of them ends the line.
abbrev pub Clear : ℕ → Text → Type 0
Clear zero t = Unit
Clear (suc n) [] = ⊥
Clear (suc n) (c ∷ t) = (c ≢ 10) × Clear n t

take-append-drop : (n : ℕ) (t : Text) → t ≡ take n t ++ drop n t
take-append-drop zero t = refl
take-append-drop (suc n) [] = refl
take-append-drop (suc n) (c ∷ t) = ap (λ r. c ∷ r) (take-append-drop n t)

pub OneLine-take : (n : ℕ) (t : Text) → Clear n t → OneLine (take n t)
OneLine-take zero t h = tt
OneLine-take (suc n) [] h = tt
OneLine-take (suc n) (c ∷ t) (h, hs) = (h, OneLine-take n t hs)

pub length-take : (n : ℕ) (t : Text) → Clear n t → length (take n t) ≡ n
length-take zero t h = refl
length-take (suc n) [] h = absurd h
length-take (suc n) (c ∷ t) (h, hs) = ap suc (length-take n t hs)

pub length-drop : (n : ℕ) (t : Text) → Clear n t → length (drop n t) + n ≡ length t
length-drop zero t h = omega arith
length-drop (suc n) [] h = absurd h
length-drop (suc n) (c ∷ t) (h, hs) = omega (arith, length-drop n t hs)

line_after-OneLine : (t : Text) (l : ℕ) → OneLine t → line_after t l ≡ l
line_after-OneLine [] l h = refl
line_after-OneLine (c ∷ t) l (h, hs) = rw (==_of_ne c 10 h) (line_after-OneLine t l hs)

column_after-OneLine : (t : Text) (k : ℕ) → OneLine t → column_after t k ≡ k + length t
column_after-OneLine [] k h = omega arith
column_after-OneLine (c ∷ t) k (h, hs) =
    rw (==_of_ne c 10 h) (column_after-OneLine t (k + 1) hs ∙ omega arith)

pub skip-Moves : (n : ℕ) (c : Cursor) → Clear n c.rest → Moves (take n c.rest) c (skip n c)
unfolding skip
skip-Moves n c h =
    let one = OneLine-take n c.rest h in
    record {
      rest = take-append-drop n c.rest;
      line = sym (line_after-OneLine _ c.line one);
      col =
          ap (λ k. c.col + k) (sym (length-take n c.rest h))
          ∙ sym (column_after-OneLine _ c.col one);
    }

pub skip-ReachesInLine : (n : ℕ) (c : Cursor) → Clear n c.rest → ReachesInLine c (skip n c)
skip-ReachesInLine n c h = (take n c.rest, skip-Moves n c h, OneLine-take n c.rest h)

pub run_length-Clear :
    (test : ℕ → Bool) (t : Text) → ((c : ℕ) → test c ≡ true → c ≢ 10) → Clear (run_length test t) t
unfolding run_length
run_length-Clear test [] h = tt
run_length-Clear test (c ∷ t) h = elim (Bool-cases (test c)) [
  | inl e ↦ rw e (h c e, run_length-Clear test t h)
  | inr e ↦ rw e tt
]

pub skip_run-ReachesInLine :
    (test : ℕ → Bool) (c : Cursor)
    → ((d : ℕ) → test d ≡ true → d ≢ 10)
    → ReachesInLine c (skip_run test c)
unfolding skip_run
skip_run-ReachesInLine test c h = skip-ReachesInLine _ c (run_length-Clear test c.rest h)

-- A test that a newline fails.
pub Clear-one :
    (test : ℕ → Bool) (t : Text) → test 10 ≡ false → holds_at 0 test t ≡ true → Clear 1 t
unfolding holds_at
Clear-one test [] h e = cc
Clear-one test (c ∷ t) h e = (λ (same : c ≡ 10). let e' = rw same at e in cc, tt)

pub Clear-two :
    (first second : ℕ → Bool) (t : Text)
    → first 10 ≡ false
    → second 10 ≡ false
    → holds_at 0 first t ≡ true
    → holds_at 1 second t ≡ true
    → Clear 2 t
unfolding holds_at
Clear-two first second [] h k e f = cc
Clear-two first second (c ∷ []) h k e f = cc
Clear-two first second (c ∷ d ∷ t) h k e f = (
  λ (same : c ≡ 10). let e' = rw same at e in cc,
  (λ (same : d ≡ 10). let f' = rw same at f in cc, tt),
)

take-length-append : (s t : Text) → take (length s) (s ++ t) ≡ s
take-length-append [] t = refl
take-length-append (c ∷ s) t = ap (λ r. c ∷ r) (take-length-append s t)

-- The slice of the text between two positions is what the scanner has read.
pub slice_moved : {t : Text} {a b : Cursor} → Moves t a b → slice a b ≡ t
unfolding slice
slice_moved {t} {a} {b} m =
    let count : length a.rest - length b.rest ≡ length t =
      omega (arith, ap (length {0}) m.rest, length-append {0} t b.rest) in
    rw (count, m.rest) (take-length-append t b.rest)

pub Moves-length :
    {t : Text} {a b : Cursor} → Moves t a b → length a.rest ≡ length t + length b.rest
Moves-length {t} {a} {b} m = ap length m.rest ∙ length-append t b.rest

-- One line or less, and at least one character.
pub record Advances (a b : Cursor) : Type 0 where
  pub reaches : ReachesInLine a b
  pub shorter : length b.rest < length a.rest

pub Advances-trans : {a b c : Cursor} → Advances a b → ReachesInLine b c → Advances a c
Advances-trans {a} {b} {c} p (t, m, one) = record {
  reaches = ReachesInLine-trans p.reaches (t, m, one);
  shorter = let shown = Moves-length m in let h = p.shorter in omega arith;
}

pub Advances-after : {a b c : Cursor} → ReachesInLine a b → Advances b c → Advances a c
Advances-after {a} {b} {c} (s, m, one) p = record {
  reaches = ReachesInLine-trans (s, m, one) p.reaches;
  shorter = let shown = Moves-length m in let h = p.shorter in omega arith;
}

pub skip-Advances : (n : ℕ) (c : Cursor) → Clear (suc n) c.rest → Advances c (skip (suc n) c)
unfolding skip
skip-Advances n c h = record {
  reaches = skip-ReachesInLine (suc n) c h;
  shorter = let shown = length-drop (suc n) c.rest h in omega arith;
}
