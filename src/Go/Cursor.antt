-- ===== src/Go/Cursor.antt =====
-- The position of the scanner of src/project_knowledge_mcp/project_analyzer/go/go_tokenizer.py.
-- `rest` is `_text[_pos:]`, so that `_pos` is the length of what stands before it.
pub mod Moves
pub mod Ensures
use gitlab_knowledege.Common.{
  ℕ, zero, suc, ◌+◌, ◌-◌, Bool, true, false, [], ◌∷◌, Text, length, take, drop, if◌then◌else◌,
}
use gitlab_knowledege.Go.Tokens.{Reason}

pub record Cursor : Type 0 where
  pub rest : Text
  pub line : ℕ
  pub col : ℕ

-- `self._pos += n; self._col += n`
unfoldable pub skip : ℕ → Cursor → Cursor
skip n c = record { rest = drop n c.rest; line = c.line; col = c.col + n }

-- `self._pos += n; self._line += 1; self._col = 1`
unfoldable pub next_line : ℕ → Cursor → Cursor
next_line n c = record { rest = drop n c.rest; line = c.line + 1; col = 1 }

-- `self._text[start : self._pos]`
unfoldable pub slice : Cursor → Cursor → Text
slice start c = take (length start.rest - length c.rest) start.rest

-- `self._pos + k < self._n`, and the character there passes the test.
unfoldable pub holds_at : ℕ → (ℕ → Bool) → Text → Bool
holds_at k test [] = false
holds_at zero test (c ∷ t) = test c
holds_at (suc k) test (c ∷ t) = holds_at k test t

-- The rounds of `while self._pos < self._n and test(self._text[self._pos])`.
unfoldable pub run_length : (ℕ → Bool) → Text → ℕ
run_length test [] = 0
run_length test (c ∷ t) = if test c then suc (run_length test t) else 0

unfoldable pub skip_run : (ℕ → Bool) → Cursor → Cursor
unfolding run_length skip
skip_run test c = skip (run_length test c.rest) c

-- What a scan does: it ends, raises `GoTokenizationError`, or is cut off by its fuel.
pub data Scan {ℓ} (A : Type ℓ) : Type ℓ where
  done : A → Scan A
  raises : ℕ → ℕ → Reason → Scan A
  out_of_fuel : Scan A

infixl 5 ◌>>=◌
abbrev pub ◌>>=◌ {ℓ κ} : {A : Type ℓ} {B : Type κ} → Scan A → (A → Scan B) → Scan B
done a >>= f = f a
raises line col r >>= f = raises line col r
out_of_fuel >>= f = out_of_fuel
