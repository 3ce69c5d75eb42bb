-- ===== src/Exec.antt =====
-- Methods that read and write an object and may raise: src/project_knowledge_mcp/errors.py, and
-- the sequencing, `try ... except` and `try ... finally` of the modules that use it. What was
-- written before a raise stays written, so the state comes back on both ways out.
pub mod Relates
pub mod Inversion
use gitlab_knowledege.Common.{ℕ, String}

-- The exception classes of errors.py that the modelled code raises or catches, and those of the
-- language and of sqlite3. `other` is any further exception.
pub data Error : Type 0 where
  store_unavailable : String → Error
  gitlab_auth : ℕ → Error
  gitlab_group_not_found : String → Error
  ingestion_in_progress : Error
  project_not_in_scope : ℕ → Error
  value_error runtime_error : Error
  sqlite_error integrity_error os_error other : String → Error

-- A result, or an exception, beside the state that the call left.
pub data Outcome {ℓ} (S A : Type ℓ) : Type ℓ where
  returned : A → S → Outcome S A
  raised : Error → S → Outcome S A

abbrev pub Exec {ℓ} : Type ℓ → Type ℓ → Type ℓ
Exec S A = S → Outcome S A

module _ {ℓ} {S A : Type ℓ} where
  abbrev pub final : Outcome S A → S
  final (returned a s) = s
  final (raised e s) = s

  unfoldable pub pure : A → Exec S A
  pure a s = returned a s

  unfoldable pub raise : Error → Exec S A
  raise e s = raised e s

  abbrev pub handle : Outcome S A → (Error → Exec S A) → Outcome S A
  handle (returned a s) h = returned a s
  handle (raised e s) h = h e s

  -- try: m  except e: h e
  unfoldable pub catch : Exec S A → (Error → Exec S A) → Exec S A
  catch m h s = handle (m s) h

module _ {ℓ} {S A B : Type ℓ} where
  -- How a block goes on: an exception skips the rest.
  abbrev pub resume : Outcome S A → (A → Exec S B) → Outcome S B
  resume (returned a s) f = f a s
  resume (raised e s) f = raised e s

  infixl 5 ◌>>=◌ ◌>>◌
  -- Opening this opens `pure` and `raise` too.
  unfoldable pub ◌>>=◌ : Exec S A → (A → Exec S B) → Exec S B
  unfolding pure raise
  ◌>>=◌ m f s = resume (m s) f

  abbrev pub ◌>>◌ : Exec S A → Exec S B → Exec S B
  m >> k = m >>= λ _. k

  abbrev pub still_returns : A → Outcome S B → Outcome S A
  still_returns a (returned _ s) = returned a s
  still_returns a (raised e s) = raised e s

  abbrev pub still_raises : Error → Outcome S B → Outcome S A
  still_raises e (returned _ s) = raised e s
  still_raises e (raised d s) = raised d s

  abbrev pub finish : Outcome S A → Exec S B → Outcome S A
  finish (returned a s) k = still_returns a (k s)
  finish (raised e s) k = still_raises e (k s)

  -- try: m  finally: k. An exception of `k` replaces the one of `m`.
  unfoldable pub finally : Exec S A → Exec S B → Exec S A
  finally m k s = finish (m s) k
