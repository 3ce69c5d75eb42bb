-- ===== src/Connector/Urls.antt =====
-- The URLs of src/project_knowledge_mcp/gitlab_connector.py: `_build_url`, and the next page in a
-- `Link` header.
pub mod Laws
use gitlab_knowledege.Common.{
  ℕ, zero, suc, ◌-◌, Bool, true, false, not, Option, some, none, [], ◌∷◌, ◌++◌, Text, codes, ◌==◌,
  length, drop, span, after_prefix, begins_with, eq_text, if◌then◌else◌,
}

abbrev pub api_prefix : Text
api_prefix = codes "/api/v4"

-- `path.lstrip("/")`
unfoldable pub strip_slashes : Text → Text
strip_slashes [] = []
strip_slashes (c ∷ t) = if c == b'/' then strip_slashes t else c ∷ t

unfoldable pub strip_api : Text → Text
strip_api t = if begins_with (codes "api/v4/") t then drop 7 t else t

unfoldable pub build_url : Text → Text → Text
unfolding strip_slashes strip_api
build_url base_url path = base_url ++ (api_prefix ++ (b'/' ∷ strip_api (strip_slashes path)))

module _ {A B : Type 0} where
  infixl 5 ◌>>=◌
  abbrev pub ◌>>=◌ : Option A → (A → Option B) → Option B
  none >>= f = none
  some a >>= f = f a

unfoldable pub filled : Text × Text → Option (Text × Text)
filled ([], rest) = none
filled (c ∷ run, rest) = some (c ∷ run, rest)

-- `is_space` is the white space of `\s`.
module _ (is_space : ℕ → Bool) where
  unfoldable pub skip_space : Text → Text
  skip_space t = (span is_space t).1

  -- `_LINK_ENTRY_RE` at this place: the URL, the relation and what follows the match. Each
  -- repetition ends before a character that it does not take, so there is one way to match.
  unfoldable pub match_entry : Text → Option (Text × Text × Text)
  unfolding filled skip_space
  match_entry t = do
    inside ← after_prefix (codes "<") t
    (url, t₁) ← filled (span (λ c. not (c == b'>')) inside)
    t₂ ← after_prefix (codes ">") t₁
    t₃ ← after_prefix (codes ";") (skip_space t₂)
    t₄ ← after_prefix (codes "rel=\"") (skip_space t₃)
    (rel, t₅) ← filled (span (λ c. not (c == b'"')) t₄)
    rest ← after_prefix (codes "\"") t₅
    some (url, rel, rest)

  -- The matches of `finditer`, up to the first one with `rel="next"`; `skip` characters of a match
  -- are still to pass.
  unfoldable pub find_next : ℕ → Text → Option Text
  unfolding match_entry
  find_next skip [] = none
  find_next (suc skip) (c ∷ t) = find_next skip t
  find_next zero (c ∷ t) = elim (match_entry (c ∷ t)) [
    | none ↦ find_next zero t
    | some (url, rel, rest) ↦ elim (eq_text rel (codes "next")) [
      | true ↦ some url
      | false ↦ find_next (length t - length rest) t
    ]
  ]

  unfoldable pub parse_link_next : Option Text → Option Text
  unfolding find_next
  parse_link_next none = none
  parse_link_next (some header) = find_next 0 header
