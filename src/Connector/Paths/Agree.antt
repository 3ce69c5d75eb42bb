-- ===== src/Connector/Paths/Agree.antt =====
-- The admission rules of src/project_knowledge_mcp/gitlab_connector.py against the rule of
-- src/project_knowledge_mcp/project_analyzer/go/go_filter.py.
use gitlab_knowledege.Common.{
  ◌≡◌, refl, Bool, true, false, not, ◌&&◌, ◌||◌, [], ◌∷◌, Text, codes, eq_text, eq_text_sound,
  member_of, arith, Bool-cases, inl, inr, if◌then◌else◌,
}
use gitlab_knowledege.Connector.Paths.{
  directories, last_segment, forward_slashes, ends_with, extension, is_empty_path, starts_readme,
  is_go_source_file, is_analyzable_path, is_analyzable_path_for_go, admits_extension,
}
use gitlab_knowledege.Connector.Paths.Segments.{
  last_segment_ends, forward_slashes_ends, extension_ends, any_of_two, IsPlain,
}

go-IsPlain : IsPlain (codes ".go")
go-IsPlain = omega arith

ends_filled : (t : Text) → ends_with (codes ".go") t ≡ true → is_empty_path t ≡ false
unfolding ends_with
ends_filled [] e = cc
ends_filled (c ∷ t) e = refl

not_go_mod : (t : Text) → ends_with (codes ".go") t ≡ true → eq_text t (codes "go.mod") ≡ false
unfolding ends_with
not_go_mod t e = elim (Bool-cases (eq_text t (codes "go.mod"))) [
  | inr other ↦ other
  | inl same ↦ let e' = rw (eq_text_sound t (codes "go.mod") same) at e in cc
]

-- The two rules on the answers of their tests.
admits_wide :
    (empty vendor named listed : Bool)
    → empty ≡ false
    → listed ≡ true
    → (if empty || vendor then false else if named then true else listed) ≡ not vendor
admits_wide empty vendor named listed e f = ground arith

admits_narrow :
    (empty excluded vendor third readme root suffix test : Bool)
    → empty ≡ false
    → root ≡ false
    → suffix ≡ true
    → excluded ≡ (vendor || third)
    → (if empty || excluded then false else if readme || root then true else suffix && not test)
      ≡ (not vendor && not third && (readme || not test))
admits_narrow empty excluded vendor third readme root suffix test e f g h = ground arith

module _ (lower : Text → Text) (path : Text) where
  extension_admitted :
      ends_with (codes ".go") path ≡ true
      → lower (codes ".go") ≡ codes ".go"
      → admits_extension lower (extension (last_segment path)) ≡ true
  extension_admitted ends lowered = rw (
    extension_ends (last_segment path) (last_segment_ends (codes ".go") path go-IsPlain ends),
    lowered,
  )

  -- If lower-casing leaves .go as it is, then for a path that ends in .go: the general rule
  -- admits it exactly if is_go_source_file does, and the rule for Go repositories admits it
  -- exactly if is_go_source_file does, no directory is third_party, and its name starts with
  -- readme in lower case or does not end in _test.go.
  pub go_rules_agree :
      ends_with (codes ".go") path ≡ true
      → lower (codes ".go") ≡ codes ".go"
      → (is_analyzable_path lower path ≡ is_go_source_file path)
        × (is_analyzable_path_for_go lower path ≡ (
            is_go_source_file path
            && not (member_of (codes "third_party") (directories (forward_slashes path)))
            && (starts_readme lower (last_segment (forward_slashes path))
                || not (ends_with (codes "_test.go") (last_segment (forward_slashes path))))))
  unfolding is_analyzable_path is_analyzable_path_for_go is_go_source_file
  go_rules_agree ends lowered =
      let empty = ends_filled path ends in
      let vendor = member_of (codes "vendor") (directories (forward_slashes path)) in
      let basename = last_segment (forward_slashes path) in
      (
        rw ends
            (admits_wide (is_empty_path path) vendor _ _ empty (extension_admitted ends lowered)),
        rw ends (
            admits_narrow (is_empty_path path) _ vendor
              (member_of (codes "third_party") (directories (forward_slashes path)))
              (starts_readme lower basename) (eq_text path (codes "go.mod"))
              (ends_with (codes ".go") basename) (ends_with (codes "_test.go") basename) empty
              (not_go_mod path ends)
              (last_segment_ends (codes ".go") (forward_slashes path) go-IsPlain
                (forward_slashes_ends (codes ".go") path go-IsPlain ends))
              (any_of_two (directories (forward_slashes path)) (codes "vendor")
                (codes "third_party"))),
      )
