-- ===== src/Connector/Paths/Segments.antt =====
-- Paths of src/project_knowledge_mcp/gitlab_connector.py that end in a suffix without separators.
use mathlib.Core.Path.{subst}
use gitlab_knowledege.Common.{
  ◌∙◌, ℕ, ◌≡◌, ◌≢◌, refl, Bool, true, false, ◌||◌, some, List, [], ◌∷◌, Text, codes, ◌==◌, eq_text,
  eq_text_sound, eq_text_sym, member_of, if◌then◌else◌, arith, Bool-cases, inl, inr, All, ==_of_ne,
}
use gitlab_knowledege.Connector.Paths.{
  split_on, last_of, last_segment, forward_slashes, ends_with, extension, any_of,
}

-- Neither of the two separators stands in the text.
abbrev pub IsPlain : Text → Type 0
IsPlain t = All (λ c. (c ≢ b'/') × (c ≢ b'\\')) t

split_on_plain : (t : Text) → IsPlain t → split_on b'/' t ≡ (t, [])
unfolding split_on
split_on_plain [] h = refl
split_on_plain (c ∷ t) ((h, k), hs) = rw (split_on_plain t hs, ==_of_ne c b'/' h)

last_segment_plain : (t : Text) → IsPlain t → last_segment t ≡ t
unfolding last_segment last_of
last_segment_plain t h = rw (split_on_plain t h)

-- One more character in front.
last_part_ends :
    (suffix : Text) (c : ℕ) (part : Text) (parts : List Text) (b : Bool)
    → ends_with suffix (last_of part parts) ≡ true
    → let longer : Text × List Text = if b then ([], part ∷ parts) else (c ∷ part, parts) in
      ends_with suffix (last_of longer.0 longer.1) ≡ true
unfolding ends_with last_of
last_part_ends suffix c part parts true e = e
last_part_ends suffix c part [] false e = ground arith
last_part_ends suffix c part (next ∷ parts) false e = e

-- A suffix without separators of a path is a suffix of its last segment.
pub last_segment_ends :
    (suffix t : Text)
    → IsPlain suffix
    → ends_with suffix t ≡ true
    → ends_with suffix (last_segment t) ≡ true
unfolding ends_with last_segment split_on
last_segment_ends suffix [] h e = e
last_segment_ends suffix (c ∷ t) h e = elim (Bool-cases (eq_text suffix (c ∷ t))) [
  | inl same ↦
      let whole = eq_text_sound suffix (c ∷ t) same in
      let plain : last_segment (c ∷ t) ≡ c ∷ t =
        last_segment_plain (c ∷ t) (subst IsPlain whole h) in
      rw plain e
  | inr other ↦
      let (part, parts) = split_on b'/' t in
      last_part_ends suffix c (split_on b'/' t).0 (split_on b'/' t).1 (c == b'/')
        (last_segment_ends suffix t h (ground arith))
]

-- The same of the path with both separators alike.
eq_text-forward_slashes :
    (suffix t : Text) → IsPlain suffix → eq_text suffix t ≡ true → forward_slashes t ≡ t
unfolding forward_slashes
eq_text-forward_slashes [] [] h e = refl
eq_text-forward_slashes [] (c ∷ t) h e = cc
eq_text-forward_slashes (d ∷ s) [] h e = cc
eq_text-forward_slashes (d ∷ s) (c ∷ t) ((h, k), hs) e =
    let same : d ≡ c = ground arith in
    let rest = eq_text-forward_slashes s t hs (ground arith) in
    rw (rest, ==_of_ne c b'\\' (λ f. k (same ∙ f)))

pub forward_slashes_ends :
    (suffix t : Text)
    → IsPlain suffix
    → ends_with suffix t ≡ true
    → ends_with suffix (forward_slashes t) ≡ true
unfolding ends_with forward_slashes
forward_slashes_ends suffix [] h e = e
forward_slashes_ends suffix (c ∷ t) h e = elim (Bool-cases (eq_text suffix (c ∷ t))) [
  | inl same ↦ rw (eq_text-forward_slashes suffix (c ∷ t) h same, same)
  | inr other ↦ let rest = forward_slashes_ends suffix t h (ground arith) in ground arith
]

-- The extension of a name that ends in an extension.
pub extension_ends :
    (t : Text) → ends_with (codes ".go") t ≡ true → extension t ≡ some (codes ".go")
unfolding ends_with extension
extension_ends [] e = cc
extension_ends (c ∷ t) e = elim (Bool-cases (eq_text (codes ".go") (c ∷ t))) [
  | inl same ↦
      subst (λ u. extension u ≡ some (codes ".go")) (eq_text_sound (codes ".go") (c ∷ t) same) refl
  | inr other ↦ rw (extension_ends t (ground arith), extension)
]

-- Two names to look for.
pub any_of_two :
    (ts : List Text) (v w : Text) → any_of ts (v ∷ w ∷ []) ≡ (member_of v ts || member_of w ts)
unfolding any_of
any_of_two [] v w = refl
any_of_two (t ∷ ts) v w = ground (arith, any_of_two ts v w, eq_text_sym t v, eq_text_sym t w)
