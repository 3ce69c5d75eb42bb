-- ===== src/Common/Texts.antt =====
-- Texts as lists of code points, and the methods of `str` that the modules call.
use Prim.Native.Nat.{ℕ, zero, suc, ◌-◌}
use Prim.Native.Char.{code}
use Prim.Native.String.{String}
use mathlib.Core.Bool.{Bool, true, false, ◌&&◌, ◌||◌}
use mathlib.Core.Option.{Option, none, some}
use mathlib.Core.List.{List, [], ◌∷◌, ◌++◌}
use mathlib.Core.Path.{◌≡◌, refl}
use native.Mathlib.Omega.{arith}
use gitlab_knowledege.Common.Tests.{◌==◌, ==_sym, if◌then◌else◌}
use gitlab_knowledege.Common.Lists.{length}

abbrev pub Text : Type 0
Text = List ℕ

abbrev pub codes : String → Text
codes String.[] = []
codes (String.◌∷◌ c s) = code c ∷ codes s

abbrev pub eq_text : Text → Text → Bool
eq_text [] [] = true
eq_text [] (c ∷ t) = false
eq_text (c ∷ s) [] = false
eq_text (c ∷ s) (d ∷ t) = (c == d) && eq_text s t

-- `in`, on a tuple or a set of texts
abbrev pub member_of : Text → List Text → Bool
member_of t [] = false
member_of t (u ∷ us) = eq_text u t || member_of t us

abbrev pub begins_with : Text → Text → Bool
begins_with [] t = true
begins_with (c ∷ p) [] = false
begins_with (c ∷ p) (d ∷ t) = (c == d) && begins_with p t

-- `p in t`, on texts
abbrev pub occurs_in : Text → Text → Bool
occurs_in p [] = begins_with p []
occurs_in p (c ∷ t) = begins_with p (c ∷ t) || occurs_in p t

abbrev pub take : ℕ → Text → Text
take zero t = []
take (suc n) [] = []
take (suc n) (c ∷ t) = c ∷ take n t

-- `separator.join(parts)`
abbrev pub join : Text → List Text → Text
join separator [] = []
join separator (p ∷ []) = p
join separator (p ∷ q ∷ ps) = p ++ separator ++ join separator (q ∷ ps)

abbrev pub close_word : Text → List Text → List Text
close_word [] ws = ws
close_word (c ∷ w) ws = (c ∷ w) ∷ ws

-- Maximal runs of the characters that pass the test: `re.findall`, and `str.split` on the rest.
abbrev pub runs : (ℕ → Bool) → Text → Text × List Text
runs test [] = ([], [])
runs test (c ∷ t) =
    let (word, words) = runs test t in
    if test c then (c ∷ word, words) else ([], close_word word words)

abbrev pub find_runs : (ℕ → Bool) → Text → List Text
find_runs test t = close_word (runs test t).0 (runs test t).1

-- `t.replace(p, " ")` for a `p` that is not empty: `skip` characters of a match are still to drop.
abbrev pub blank_out : Text → ℕ → Text → Text
blank_out p skip [] = []
blank_out p (suc skip) (c ∷ t) = blank_out p skip t
blank_out p zero (c ∷ t) =
    if begins_with p (c ∷ t) then 32 ∷ blank_out p (length p - 1) t else c ∷ blank_out p zero t

-- Without its trailing characters that pass the test.
abbrev pub strip_right : (ℕ → Bool) → Text → Text
strip_right test [] = []
strip_right test (c ∷ t) = keep (strip_right test t)
  where
    keep : Text → Text
    keep [] = if test c then [] else c ∷ []
    keep (d ∷ u) = c ∷ d ∷ u

abbrev pub drop : ℕ → Text → Text
drop zero t = t
drop (suc n) [] = []
drop (suc n) (c ∷ t) = drop n t

-- `c in t`, for a character
abbrev pub among : ℕ → Text → Bool
among c [] = false
among c (d ∷ t) = (c == d) || among c t

pub eq_text_sound : (s t : Text) → eq_text s t ≡ true → s ≡ t
eq_text_sound [] [] e = refl
eq_text_sound [] (c ∷ t) e = cc
eq_text_sound (c ∷ s) [] e = cc
eq_text_sound (c ∷ s) (d ∷ t) e =
    let same : c ≡ d = ground arith in
    let rest = eq_text_sound s t (ground arith) in rw (same, rest)

pub eq_text_sym : (s t : Text) → eq_text s t ≡ eq_text t s
eq_text_sym [] [] = refl
eq_text_sym [] (c ∷ t) = refl
eq_text_sym (c ∷ s) [] = refl
eq_text_sym (c ∷ s) (d ∷ t) = rw (eq_text_sym s t, ==_sym c d)

-- The longest prefix of characters that pass the test, and what is left.
abbrev pub span : (ℕ → Bool) → Text → Text × Text
span test [] = ([], [])
span test (c ∷ t) = let (run, rest) = span test t in if test c then (c ∷ run, rest) else ([], c ∷ t)

-- What follows a prefix.
abbrev pub after_prefix : Text → Text → Option Text
after_prefix [] t = some t
after_prefix (c ∷ p) [] = none
after_prefix (c ∷ p) (d ∷ t) = if c == d then after_prefix p t else none
