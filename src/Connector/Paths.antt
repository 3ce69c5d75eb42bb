-- ===== src/Connector/Paths.antt =====
-- The admission rules for the files of a repository: `_is_analyzable_path` and its stricter form
-- in src/project_knowledge_mcp/gitlab_connector.py, and
-- src/project_knowledge_mcp/project_analyzer/go/go_filter.py.
pub mod Segments
pub mod Agree
use gitlab_knowledege.Common.{
  ℕ, Bool, true, false, not, ◌&&◌, ◌||◌, Option, some, none, List, [], ◌∷◌, map, Text, codes, ◌==◌,
  eq_text, member_of, begins_with, if◌then◌else◌,
}

-- `t.split_on(separator)`, which is never empty: its first part, and the others.
unfoldable pub split_on : ℕ → Text → Text × List Text
split_on separator [] = ([], [])
split_on separator (c ∷ t) =
    let (part, parts) = split_on separator t in
    if c == separator then ([], part ∷ parts) else (c ∷ part, parts)

-- `[-1]` and `[:-1]` of the parts
unfoldable pub last_of : Text → List Text → Text
last_of part [] = part
last_of part (next ∷ parts) = last_of next parts

unfoldable pub all_but_last : Text → List Text → List Text
all_but_last part [] = []
all_but_last part (next ∷ parts) = part ∷ all_but_last next parts

unfoldable pub last_segment : Text → Text
unfolding split_on last_of
last_segment t = let (part, parts) = split_on b'/' t in last_of part parts

unfoldable pub directories : Text → List Text
unfolding split_on all_but_last
directories t = let (part, parts) = split_on b'/' t in all_but_last part parts

-- `path.replace("\\", "/")`
unfoldable pub forward_slashes : Text → Text
forward_slashes [] = []
forward_slashes (c ∷ t) = (if c == b'\\' then b'/' else c) ∷ forward_slashes t

unfoldable pub ends_with : Text → Text → Bool
ends_with suffix [] = eq_text suffix []
ends_with suffix (c ∷ t) = eq_text suffix (c ∷ t) || ends_with suffix t

-- From the last dot on.
unfoldable pub extension : Text → Option Text
extension [] = none
extension (c ∷ t) = elim (extension t) [
  | some e ↦ some e
  | none ↦ if c == b'.' then some (c ∷ t) else none
]

unfoldable pub any_of : List Text → List Text → Bool
any_of [] names = false
any_of (t ∷ ts) names = member_of t names || any_of ts names

abbrev pub analyzable_basenames : List Text
analyzable_basenames =
    codes "Dockerfile"
    ∷ codes "Gemfile"
    ∷ codes "build.gradle"
    ∷ codes "build.gradle.kts"
    ∷ codes "composer.json"
    ∷ codes "go.mod"
    ∷ codes "package.json"
    ∷ codes "pom.xml"
    ∷ codes "pyproject.toml"
    ∷ codes "requirements.txt"
    ∷ codes "setup.cfg"
    ∷ codes "setup.py"
    ∷ codes "Cargo.toml"
    ∷ []

abbrev pub analyzable_extensions : List Text
analyzable_extensions =
    codes ".go"
    ∷ codes ".java"
    ∷ codes ".js"
    ∷ codes ".jsx"
    ∷ codes ".kt"
    ∷ codes ".kts"
    ∷ codes ".py"
    ∷ codes ".rb"
    ∷ codes ".rs"
    ∷ codes ".sql"
    ∷ codes ".toml"
    ∷ codes ".ts"
    ∷ codes ".tsx"
    ∷ codes ".yaml"
    ∷ codes ".yml"
    ∷ []

abbrev pub is_empty_path : Text → Bool
is_empty_path [] = true
is_empty_path (c ∷ t) = false

-- `go_filter.is_go_source_file`
unfoldable pub is_go_source_file : Text → Bool
unfolding directories forward_slashes ends_with
is_go_source_file path =
    ends_with (codes ".go") path
    && not (member_of (codes "vendor") (directories (forward_slashes path)))

unfoldable pub any_go_source : List Text → Bool
unfolding is_go_source_file
any_go_source [] = false
any_go_source (p ∷ ps) = is_go_source_file p || any_go_source ps

-- `go_filter.has_go_artefacts`, on the keys of the mapping
unfoldable pub has_go_artefacts : List Text → Bool
unfolding any_go_source
has_go_artefacts paths = member_of (codes "go.mod") paths || any_go_source paths

-- `lower` is `str.lower`.
module _ (lower : Text → Text) where
  unfoldable pub starts_readme : Text → Bool
  starts_readme basename = begins_with (codes "readme") (lower basename)

  abbrev pub admits_extension : Option Text → Bool
  admits_extension none = false
  admits_extension (some e) = member_of (lower e) analyzable_extensions

  unfoldable pub is_analyzable_path : Text → Bool
  unfolding directories forward_slashes last_segment extension starts_readme
  is_analyzable_path path =
      let basename = last_segment path in
      if is_empty_path path || member_of (codes "vendor") (directories (forward_slashes path))
      then false
      else if starts_readme basename || member_of basename analyzable_basenames
      then true
      else admits_extension (extension basename)

  unfoldable pub is_analyzable_path_for_go : Text → Bool
  unfolding directories forward_slashes last_segment any_of ends_with starts_readme
  is_analyzable_path_for_go path =
      let basename = last_segment (forward_slashes path) in
      if is_empty_path path
        || any_of (directories (forward_slashes path)) (codes "vendor" ∷ codes "third_party" ∷ [])
      then false
      else if starts_readme basename || eq_text path (codes "go.mod")
      then true
      else ends_with (codes ".go") basename && not (ends_with (codes "_test.go") basename)
