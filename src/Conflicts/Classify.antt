-- ===== src/Conflicts/Classify.antt =====
-- `classify_pair` of src/project_knowledge_mcp/conflict_detector.py.
use gitlab_knowledege.Common.{
  Bool, List, ◌++◌, ◌&&◌, ◌||◌, not, if◌then◌else◌, Text, codes, eq_text,
}
use gitlab_knowledege.Models.{ProjectProfile}
use gitlab_knowledege.Conflicts.{
  Interpreter, conflict, no_conflict, indeterminate, ConflictResult, unknown_purpose_summary,
  canonical_responsibility_key, overlaps, same_key, is_empty_key, format_responsibility_phrase,
  opposite, tokenize_for_key, ownership_stance, excerpt,
}

abbrev pub summary_of : ProjectProfile → Text
summary_of p = codes p.purpose_summary

abbrev pub is_unknown : ProjectProfile → Bool
is_unknown p = eq_text (summary_of p) unknown_purpose_summary

unfoldable pub indeterminate_justification : ProjectProfile → ProjectProfile → Text
indeterminate_justification a b =
    if is_unknown a && is_unknown b
    then codes "purpose summary is unknown for projects '"
      ++ codes a.full_path
      ++ codes "' and '"
      ++ codes b.full_path
      ++ codes "'"
    else codes "purpose summary is unknown for project '"
      ++ (if is_unknown a then codes a.full_path else codes b.full_path)
      ++ codes "'"

module _ (py : Interpreter) where
  abbrev pub key_of : ProjectProfile → List Text
  key_of p = canonical_responsibility_key (tokenize_for_key py (summary_of p))

  unfoldable pub quoted : ProjectProfile → ProjectProfile → Text
  quoted a b =
      codes "\""
      ++ excerpt py (summary_of a)
      ++ codes "\" vs \""
      ++ excerpt py (summary_of b)
      ++ codes "\""

  unfoldable pub keys_match : ProjectProfile → ProjectProfile → Bool
  keys_match a b = same_key (key_of a) (key_of b) && not (is_empty_key (key_of a))

  unfoldable pub similar : ProjectProfile → ProjectProfile → Bool
  similar a b = overlaps (tokenize_for_key py (summary_of a)) (tokenize_for_key py (summary_of b))

  unfoldable pub contradictory : ProjectProfile → ProjectProfile → Bool
  contradictory a b =
      opposite (ownership_stance py (summary_of a)) (ownership_stance py (summary_of b))

  unfoldable pub classify_pair : ProjectProfile → ProjectProfile → ConflictResult
  classify_pair a b =
      if is_unknown a || is_unknown b
      then record { kind = indeterminate; justification = indeterminate_justification a b }
      else if keys_match a b && similar a b
      then record {
        kind = conflict;
        justification =
            codes "both purpose summaries describe substantially the same primary responsibility '"
            ++ format_responsibility_phrase (key_of a)
            ++ codes "': "
            ++ quoted a b;
      }
      else if keys_match a b && contradictory a b
      then record {
        kind = conflict;
        justification =
            codes "purpose summaries assert contradictory ownership of '"
            ++ format_responsibility_phrase (key_of a)
            ++ codes "': "
            ++ quoted a b;
      }
      else record {
        kind = no_conflict;
        justification =
            codes "purpose summaries describe different primary responsibilities ('"
            ++ format_responsibility_phrase (key_of a)
            ++ codes "' vs '"
            ++ format_responsibility_phrase (key_of b)
            ++ codes "'): "
            ++ quoted a b;
      }
