-- ===== src/Connector/Urls/Laws.antt =====
-- Laws of the URLs of src/project_knowledge_mcp/gitlab_connector.py.
use gitlab_knowledege.Common.{
  ℕ, ◌-◌, ◌<◌, ◌≡◌, ◌≢◌, refl, ap, ◌∙◌, Bool, true, false, not, Option, some, none, List, [], ◌∷◌,
  ◌++◌, Text, codes, ◌==◌, length, length-append, span, after_prefix, begins_with, eq_text,
  if◌then◌else◌, arith, All, Bool-cases, inl, inr, ==_of_ne,
}
use mathlib.Core.List.{append_assoc}
use gitlab_knowledege.Connector.Urls.{
  strip_slashes, strip_api, build_url, ◌>>=◌, filled, skip_space, match_entry, find_next,
  parse_link_next,
}

no_slashes : (t : Text) → begins_with (codes "/") t ≡ false → strip_slashes t ≡ t
unfolding strip_slashes
no_slashes [] h = refl
no_slashes (c ∷ t) h = ground arith

module _ (base path : Text) where
  -- For a path that starts neither with a slash nor with api/v4/, build_url gives the base URL,
  -- /api/v4/ and the path, and the same for the path behind /, api/v4/ or /api/v4/.
  pub build_url_spellings :
      begins_with (codes "/") path ≡ false
      → begins_with (codes "api/v4/") path ≡ false
      → let url = base ++ (codes "/api/v4/" ++ path) in
        (build_url base path ≡ url)
        × (build_url base (codes "/" ++ path) ≡ url)
        × (build_url base (codes "api/v4/" ++ path) ≡ url)
        × (build_url base (codes "/api/v4/" ++ path) ≡ url)
  unfolding build_url strip_slashes strip_api
  build_url_spellings plain bare =
      let same : strip_api (strip_slashes path) ≡ path =
        rw (no_slashes path plain) (rw (bare, strip_api)) in
      (rw same, rw same, refl, refl)

-- An entry of a header as GitLab writes it, in front of what follows.
abbrev pub entry : Text → Text → Text → Text
entry url rel rest = b'<' ∷ (url ++ (b'>' ∷ b';' ∷ 32 ∷ (codes "rel=\"" ++ (rel ++ (b'"' ∷ rest)))))

abbrev pub header : List (Text × Text) → Text
header [] = []
header ((url, rel) ∷ []) = entry url rel []
header ((url, rel) ∷ e ∷ es) = entry url rel (b',' ∷ 32 ∷ header (e ∷ es))

-- A URL and a relation that the entries can hold.
abbrev pub IsEntry : Text × Text → Type 0
IsEntry (url, rel) =
    (0 < length url) × All (λ c. c ≢ b'>') url × (0 < length rel) × All (λ c. c ≢ b'"') rel

-- The URL of the first entry whose relation is `next`.
abbrev pub first_next : List (Text × Text) → Option Text
first_next [] = none
first_next ((url, rel) ∷ es) = if eq_text rel (codes "next") then some url else first_next es

span_stops :
    (k : ℕ) (run rest : Text)
    → All (λ c. c ≢ k) run
    → span (λ c. not (c == k)) (run ++ (k ∷ rest)) ≡ (run, k ∷ rest)
span_stops k [] rest h = ground arith
span_stops k (c ∷ run) rest (h, hs) = rw (span_stops k run rest hs, ==_of_ne c k h)

filled_span :
    (k : ℕ) (run rest : Text)
    → 0 < length run
    → All (λ c. c ≢ k) run
    → filled (span (λ c. not (c == k)) (run ++ (k ∷ rest))) ≡ some (run, k ∷ rest)
unfolding filled
filled_span k [] rest h hs = absurd (omega arith)
filled_span k (c ∷ run) rest h hs = rw (span_stops k (c ∷ run) rest hs)

bind_some :
    {A B : Type 0} (m : Option A) (f : A → Option B) (a : A) {b : Option B}
    → m ≡ some a
    → f a ≡ b
    → (m >>= f) ≡ b
bind_some (some x) f a e h = let same : x ≡ a = ground arith in rw same h
bind_some none f a e h = cc

-- What `\s` answers on the three characters that follow a URL.
pub record IsSpacing (is_space : ℕ → Bool) : Type 0 where
  pub space : is_space 32 ≡ true
  pub semicolon : is_space b';' ≡ false
  pub letter : is_space b'r' ≡ false

module _ (is_space : ℕ → Bool) (spacing : IsSpacing is_space) where
  skip_none : (t : Text) → skip_space is_space (b';' ∷ t) ≡ b';' ∷ t
  unfolding skip_space
  skip_none t = ground (arith, spacing.semicolon)

  skip_one : (t : Text) → skip_space is_space (32 ∷ b'r' ∷ t) ≡ b'r' ∷ t
  unfolding skip_space
  skip_one t = ground (arith, spacing.space, spacing.letter)

  match_entry_lem :
      (url rel rest : Text)
      → IsEntry (url, rel)
      → match_entry is_space (entry url rel rest) ≡ some (url, rel, rest)
  unfolding match_entry
  match_entry_lem url rel rest (u, us, r, rs) =
      let closing = rel ++ (b'"' ∷ rest) in
      let named = codes "rel=\"" ++ closing in
      bind_some (filled (span (λ c. not (c == b'>')) (url ++ (b'>' ∷ b';' ∷ 32 ∷ named)))) _
        (url, b'>' ∷ b';' ∷ 32 ∷ named) (filled_span b'>' url (b';' ∷ 32 ∷ named) u us)
        (bind_some (after_prefix (codes ";") (skip_space is_space (b';' ∷ 32 ∷ named))) _
          (32 ∷ named) (rw (skip_none (32 ∷ named)) refl)
          (bind_some (after_prefix (codes "rel=\"") (skip_space is_space (32 ∷ named))) _ closing
            (rw (skip_one (codes "el=\"" ++ closing)) refl)
            (bind_some (filled (span (λ c. not (c == b'"')) closing)) _ (rel, b'"' ∷ rest)
              (filled_span b'"' rel rest r rs) refl)))

  find_next_skip :
      (u rest : Text) → find_next is_space (length u) (u ++ rest) ≡ find_next is_space 0 rest
  unfolding find_next
  find_next_skip [] rest = refl
  find_next_skip (c ∷ u) rest = find_next_skip u rest

  -- The characters of an entry behind the first.
  entry_tail : Text → Text → Text
  entry_tail url rel = url ++ (b'>' ∷ b';' ∷ 32 ∷ (codes "rel=\"" ++ (rel ++ (b'"' ∷ []))))

  tail_split :
      (url rel rest : Text)
      → url ++ (b'>' ∷ b';' ∷ 32 ∷ (codes "rel=\"" ++ (rel ++ (b'"' ∷ rest))))
        ≡ entry_tail url rel ++ rest
  unfolding entry_tail
  tail_split url rel rest = simp (append_assoc)

  tail_length : (u rest : Text) → length (u ++ rest) - length rest ≡ length u
  tail_length u rest = omega (arith, length-append {0} u rest)

  find_next-entry :
      (url rel rest : Text)
      → IsEntry (url, rel)
      → find_next is_space 0 (entry url rel rest)
        ≡ (if eq_text rel (codes "next") then some url else find_next is_space 0 rest)
  unfolding find_next
  find_next-entry url rel rest h = elim (Bool-cases (eq_text rel (codes "next"))) [
    | inl e ↦ rw (match_entry_lem url rel rest h, e, find_next)
    | inr e ↦
        rw (match_entry_lem url rel rest h, e, find_next)
          (rw (tail_split url rel rest, tail_length (entry_tail url rel) rest)
            (find_next_skip (entry_tail url rel) rest))
  ]

  match_entry-none : (c : ℕ) (t : Text) → (b'<' == c) ≡ false → match_entry is_space (c ∷ t) ≡ none
  unfolding match_entry
  match_entry-none c t e = rw (e, match_entry, ◌>>=◌)

  not_an_entry :
      (c : ℕ) (t : Text)
      → (b'<' == c) ≡ false
      → find_next is_space 0 (c ∷ t) ≡ find_next is_space 0 t
  unfolding find_next
  not_an_entry c t e = rw (match_entry-none c t e, find_next)

  header-first_next :
      (es : List (Text × Text)) → All IsEntry es → find_next is_space 0 (header es) ≡ first_next es
  unfolding find_next
  header-first_next [] h = refl
  header-first_next ((url, rel) ∷ []) (h, hs) = find_next-entry url rel [] h
  header-first_next ((url, rel) ∷ e ∷ es) (h, hs) =
      let rest = header (e ∷ es) in
      find_next-entry url rel (b',' ∷ 32 ∷ rest) h
      ∙ ap (λ o. if eq_text rel (codes "next") then some url else o)
          (not_an_entry b',' (32 ∷ rest) refl
            ∙ not_an_entry 32 rest refl
            ∙ header-first_next (e ∷ es) hs)

  -- If a space is white space to the pattern and a semicolon and the letter r are not, then for
  -- any entries with a URL without > and a relation without a double quote, neither of them
  -- empty, parse_link_next reads from their header the URL of the first entry whose relation is
  -- next, or none.
  pub parse_link_next-header :
      (es : List (Text × Text))
      → All IsEntry es
      → parse_link_next is_space (some (header es)) ≡ first_next es
  unfolding parse_link_next
  parse_link_next-header es h = header-first_next es h
