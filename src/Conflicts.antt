-- ===== src/Conflicts.antt =====
-- src/project_knowledge_mcp/conflict_detector.py: the classification of a pair of profiles, and
-- the list of all conflicts.
pub mod Classify
pub mod Find
pub mod Pairs
pub mod Exact
pub mod Sorted
use gitlab_knowledege.Common.{
  ℕ, ◌*◌, ◌+◌, ◌≤◌, String, Bool, true, false, Option, none, some, List, [], ◌∷◌, ◌++◌, ◌&&◌, ◌||◌,
  not, map, ◌==◌, ltb, leb, if◌then◌else◌, length, Text, codes, eq_text, member_of, begins_with,
  occurs_in, take, join, find_runs, blank_out, strip_right,
}
use gitlab_knowledege.Models.{ProjectProfile}

-- What the interpreter decides: the Unicode data behind `str.lower` and `str.isspace`, and the
-- order in which `sorted(..., key=len, reverse=True)` gives the members of a set.
pub record Interpreter : Type 0 where
  pub lower : Text → Text
  pub is_space : ℕ → Bool
  pub longest_first : List Text → List Text

pub data ConflictKind : Type 0 where
  conflict no_conflict indeterminate : ConflictKind

pub record ConflictResult : Type 0 where
  pub kind : ConflictKind
  pub justification : Text

pub record ConflictPair : Type 0 where
  pub project_id_a : ℕ
  pub project_id_b : ℕ
  pub justification : Text

pub data Stance : Type 0 where
  owner delegator : Stance

abbrev pub stopwords : List Text
stopwords = map codes (
    "a" ∷ "an" ∷ "and" ∷ "any" ∷ "are" ∷ "as" ∷ "at" ∷ "be" ∷ "been" ∷ "being" ∷ "but" ∷ "by"
    ∷ "can" ∷ "could" ∷ "did" ∷ "do" ∷ "does" ∷ "for" ∷ "from" ∷ "had" ∷ "has" ∷ "have" ∷ "he"
    ∷ "her" ∷ "hers" ∷ "him" ∷ "his" ∷ "how" ∷ "i" ∷ "in" ∷ "into" ∷ "is" ∷ "it" ∷ "its" ∷ "may"
    ∷ "me" ∷ "might" ∷ "mine" ∷ "must" ∷ "my" ∷ "no" ∷ "nor" ∷ "not" ∷ "of" ∷ "on" ∷ "or" ∷ "ought"
    ∷ "our" ∷ "ours" ∷ "out" ∷ "over" ∷ "shall" ∷ "she" ∷ "should" ∷ "so" ∷ "than" ∷ "that" ∷ "the"
    ∷ "their" ∷ "theirs" ∷ "them" ∷ "they" ∷ "this" ∷ "those" ∷ "to" ∷ "too" ∷ "under" ∷ "up" ∷ "us"
    ∷ "was" ∷ "we" ∷ "were" ∷ "what" ∷ "when" ∷ "where" ∷ "which" ∷ "while" ∷ "who" ∷ "whom"
    ∷ "whose" ∷ "why" ∷ "will" ∷ "with" ∷ "within" ∷ "without" ∷ "would" ∷ "you" ∷ "your" ∷ "yours"
    ∷ [])

abbrev pub positive_ownership_phrases : List Text
positive_ownership_phrases = map codes (
    "controls" ∷ "handles" ∷ "is responsible for" ∷ "is the owner of" ∷ "is the source of truth for"
    ∷ "is the system of record for" ∷ "manages" ∷ "owner of" ∷ "owns" ∷ [])

abbrev pub negative_ownership_phrases : List Text
negative_ownership_phrases = map codes (
    "delegates" ∷ "does not handle" ∷ "does not manage" ∷ "does not own" ∷ "is not responsible for"
    ∷ "is not the owner of" ∷ "must not" ∷ [])

abbrev pub ownership_marker_tokens : List Text
ownership_marker_tokens =
    map codes
      ("controls" ∷ "delegates" ∷ "handles" ∷ "manages" ∷ "owner" ∷ "owns" ∷ "responsible" ∷ [])

abbrev pub unknown_purpose_summary : Text
unknown_purpose_summary = codes "unknown"

-- [a-z0-9]
unfoldable pub is_token_char : ℕ → Bool
is_token_char c = (leb 97 c && leb c 122) || (leb 48 c && leb c 57)

unfoldable pub drop_plural : Text → Text
drop_plural [] = []
drop_plural (c ∷ []) = if c == 115 then [] else c ∷ []
drop_plural (c ∷ d ∷ t) = c ∷ drop_plural (d ∷ t)

-- A token of at least four letters loses one final `s`.
unfoldable pub singular : Text → Text
singular t = if leb 4 (length t) then drop_plural t else t

unfoldable pub without : List Text → List Text → List Text
without stop [] = []
without stop (t ∷ ts) = if member_of t stop then without stop ts else t ∷ without stop ts

unfoldable pub canonical_responsibility_key : List Text → List Text
canonical_responsibility_key [] = []
canonical_responsibility_key (t ∷ []) = t ∷ []
canonical_responsibility_key (t ∷ u ∷ ts) = t ∷ u ∷ []

-- `set(tokens)`, one entry for each text
unfoldable pub set_of : List Text → List Text
set_of [] = []
set_of (t ∷ ts) = if member_of t ts then set_of ts else t ∷ set_of ts

unfoldable pub count_in : List Text → List Text → ℕ
count_in [] other = 0
count_in (t ∷ ts) other = if member_of t other then 1 + count_in ts other else count_in ts other

-- similarity >= 0.6, for `len(a & b) / len(a | b)`: the quotient of two sizes below 2 ^ 50 is at
-- least the double nearest 0.6 exactly if it is at least 3/5. Two empty sets have similarity 0.
unfoldable pub overlaps : List Text → List Text → Bool
overlaps [] [] = false
overlaps a b = leb (3 * length (set_of (a ++ b))) (5 * count_in (set_of a) b)

unfoldable pub same_key : List Text → List Text → Bool
same_key [] [] = true
same_key (t ∷ ts) (u ∷ us) = eq_text t u && same_key ts us
same_key _ _ = false

unfoldable pub is_empty_key : List Text → Bool
is_empty_key [] = true
is_empty_key (t ∷ ts) = false

unfoldable pub any_occurs : List Text → Text → Bool
any_occurs [] t = false
any_occurs (p ∷ ps) t = occurs_in p t || any_occurs ps t

unfoldable pub format_responsibility_phrase : List Text → Text
format_responsibility_phrase [] = codes "(no content tokens)"
format_responsibility_phrase (t ∷ ts) = join (32 ∷ []) (t ∷ ts)

-- {a, b} == {"owner", "delegator"}
unfoldable pub opposite : Option Stance → Option Stance → Bool
opposite (some owner) (some delegator) = true
opposite (some delegator) (some owner) = true
opposite _ _ = false

module _ (py : Interpreter) where
  -- `str.split()`
  unfoldable pub split : Text → List Text
  split t = find_runs (λ c. not (py.is_space c)) t

  unfoldable pub normalize : Text → Text
  normalize summary = join (32 ∷ []) (split (py.lower summary))

  unfoldable pub strip_each : List Text → Text → Text
  strip_each [] t = t
  strip_each (p ∷ ps) t = strip_each ps (if occurs_in (32 ∷ []) p then blank_out p 0 t else t)

  unfoldable pub strip_marker_phrases : Text → Text
  strip_marker_phrases t =
      strip_each (py.longest_first (positive_ownership_phrases ++ negative_ownership_phrases)) t

  unfoldable pub tokenize : Text → List Text
  tokenize summary = map singular (without stopwords (find_runs is_token_char (py.lower summary)))

  unfoldable pub tokenize_for_key : Text → List Text
  tokenize_for_key summary =
      without ownership_marker_tokens (tokenize (strip_marker_phrases (normalize summary)))

  unfoldable pub ownership_stance : Text → Option Stance
  ownership_stance summary =
      if any_occurs negative_ownership_phrases (normalize summary)
      then some delegator
      else if any_occurs positive_ownership_phrases (normalize summary)
      then some owner
      else none

  unfoldable pub excerpt : Text → Text
  excerpt summary =
      let flat = join (32 ∷ []) (split summary) in
      if leb (length flat) 80 then flat else strip_right py.is_space (take 79 flat) ++ 8230 ∷ []
