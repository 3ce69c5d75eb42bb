-- ===== src/Go/Cursor/Ensures.antt =====
-- Postconditions of the scans of src/project_knowledge_mcp/project_analyzer/go/go_tokenizer.py.
use gitlab_knowledege.Common.{ℕ, ◌≡◌, refl, Bool, true, false, if◌then◌else◌}
use gitlab_knowledege.Go.Tokens.{Reason}
use gitlab_knowledege.Go.Cursor.{Scan, done, raises, out_of_fuel, ◌>>=◌}

-- The scan kept within its fuel, what it raised carries this position, and `P` holds of its value.
abbrev pub Ensures : {A : Type 0} → ℕ → ℕ → (A → Type 0) → Scan A → Type 0
Ensures line col P (done a) = P a
Ensures line col P (raises l c r) = (l ≡ line) × (c ≡ col)
Ensures line col P out_of_fuel = ⊥

module _ {A B : Type 0} (line col : ℕ) where
  pub Ensures-bind :
      (P : A → Type 0) (Q : B → Type 0) (m : Scan A) (f : A → Scan B)
      → Ensures line col P m
      → ((a : A) → P a → Ensures line col Q (f a))
      → Ensures line col Q (m >>= f)
  Ensures-bind P Q (done a) f h k = k a h
  Ensures-bind P Q (raises l c r) f h k = h
  Ensures-bind P Q out_of_fuel f h k = absurd h

module _ {A : Type 0} (line col : ℕ) where
  pub Ensures-if :
      (P : A → Type 0) (b : Bool) (x y : Scan A)
      → (b ≡ true → Ensures line col P x)
      → (b ≡ false → Ensures line col P y)
      → Ensures line col P (if b then x else y)
  Ensures-if P true x y h k = h refl
  Ensures-if P false x y h k = k refl

  pub Ensures-if_raises :
      (P : A → Type 0) (b : Bool) (r : Reason) (y : Scan A)
      → (b ≡ false → Ensures line col P y)
      → Ensures line col P (if b then raises line col r else y)
  Ensures-if_raises P true r y k = (refl, refl)
  Ensures-if_raises P false r y k = k refl

  pub Ensures-weaken :
      (P Q : A → Type 0) (m : Scan A)
      → ((a : A) → P a → Q a)
      → Ensures line col P m
      → Ensures line col Q m
  Ensures-weaken P Q (done a) k h = k a h
  Ensures-weaken P Q (raises l c r) k h = h
  Ensures-weaken P Q out_of_fuel k h = absurd h
