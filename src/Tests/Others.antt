-- ===== src/Tests/Others.antt =====
-- Examples on conflicts and on the configuration.
use mathlib.Core.List.{Memᴰ}
use gitlab_knowledege.Common.{
  ℕ, map, ◌+◌, ◌<◌, ◌≡◌, ◌≢◌, refl, true, none, some, [], ◌∷◌, ◌&&◌, ◌==◌, leb, if◌then◌else◌, Text,
  codes, take, ◌-◌, inr,
}
use gitlab_knowledege.Models.{ProjectProfile}
use gitlab_knowledege.Conflicts.{
  Interpreter, conflict, no_conflict, tokenize_for_key, tokenize, normalize, split,
  strip_marker_phrases, strip_each, ownership_stance, any_occurs, opposite,
  canonical_responsibility_key, overlaps, set_of, count_in, same_key, is_empty_key, without,
  singular, drop_plural, is_token_char,
}
use text.Mathlib.Text.{◌==◌ as str_eq}
use gitlab_knowledege.Conflicts.Classify.{classify_pair, keys_match, similar, contradictory}
use gitlab_knowledege.Conflicts.Find.{find_pair, find_all_conflicts}
use gitlab_knowledege.Conflicts.Exact.{ConflictIn}
use gitlab_knowledege.Conflicts.Sorted.{
  AscendingPairs, find_all_conflicts_sorted, find_all_conflicts_exact,
}
use gitlab_knowledege.Config.{
  Runtime, Config, build_config, Env, validate_required_url, validate_required_non_empty, check_url,
  is_blank, strip, is_nil, drop_while, take_while, validate_gitlab_verify_ssl,
  validate_analysis_branch, validate_refresh_interval, parse_duration, scaled, unit_seconds,
  timedelta, int, digits_value, is_digit, check_interval, validate_visualization_port, read_port,
  all_digits, check_port,
}
use gitlab_knowledege.Config.Bounds.{IsUsable, build_config-IsUsable}
use gitlab_knowledege.Tests.{shop_profile, till_profile}

-- The characters of ASCII.
abbrev pub ascii : Interpreter
ascii = record {
  lower = map (λ c. if leb 65 c && leb c 90 then c + 32 else c);
  is_space = λ c. c == 32;
  longest_first = λ ps. ps;
}

find_all_conflicts_sorted_example :
    AscendingPairs (find_all_conflicts ascii (shop_profile ∷ till_profile ∷ []))
find_all_conflicts_sorted_example =
    find_all_conflicts_sorted ascii (shop_profile ∷ till_profile ∷ [])

find_all_conflicts_exact_example :
    ((a b : ℕ) (j : Text)
      → find_pair a b (find_all_conflicts ascii (shop_profile ∷ till_profile ∷ [])) ≡ some j
      → ConflictIn ascii a b j (shop_profile ∷ till_profile ∷ []))
    × ((x y : ProjectProfile)
        → Memᴰ x (shop_profile ∷ till_profile ∷ [])
        → Memᴰ y (shop_profile ∷ till_profile ∷ [])
        → x.gitlab_project_id < y.gitlab_project_id
        → (classify_pair ascii x y).kind ≡ conflict
        → find_pair x.gitlab_project_id y.gitlab_project_id
            (find_all_conflicts ascii (shop_profile ∷ till_profile ∷ []))
          ≢ none)
find_all_conflicts_exact_example = find_all_conflicts_exact ascii (shop_profile ∷ till_profile ∷ [])

abbrev second_shop : ProjectProfile
second_shop = record shop_profile { gitlab_project_id = 5 }

-- Two owners of one responsibility.
same_summary_conflicts : (classify_pair ascii second_shop shop_profile).kind ≡ conflict
unfolding classify_pair keys_match similar contradictory tokenize_for_key tokenize normalize split
    strip_marker_phrases strip_each ownership_stance any_occurs opposite
    canonical_responsibility_key overlaps set_of count_in same_key is_empty_key without singular
    drop_plural is_token_char
same_summary_conflicts = refl

-- Two owners of one responsibility, in the words `owns` and `manages`: the tokens are `own` and
-- `manage`, which no marker is, so the keys differ.
other_verb_apart : (classify_pair ascii till_profile shop_profile).kind ≡ no_conflict
unfolding classify_pair keys_match similar contradictory tokenize_for_key tokenize normalize split
    strip_marker_phrases strip_each ownership_stance any_occurs opposite
    canonical_responsibility_key overlaps set_of count_in same_key is_empty_key without singular
    drop_plural is_token_char
other_verb_apart = refl

abbrev latin : Runtime
latin = record {
  lower = λ t. t;
  is_space = λ c. c == 32;
  digit = λ c. if leb 48 c && leb c 57 then some (c - 48) else none;
  urlsplit = λ t. some (take 5 t, t);
}

abbrev deployed : Env
deployed name =
    if str_eq name "GITLAB_BASE_URL"
    then some (codes "https://git.example")
    else if str_eq name "GITLAB_GROUP_PATH"
    then some (codes "group")
    else if str_eq name "GITLAB_ACCESS_TOKEN"
    then some (codes "secret")
    else if str_eq name "REFRESH_INTERVAL"
    then some (codes " 5m ")
    else if str_eq name "VISUALIZATION_PORT"
    then some (codes "8080")
    else none

abbrev deployed_config : Config
deployed_config = record {
  gitlab_base_url = codes "https://git.example";
  gitlab_group_path = codes "group";
  gitlab_access_token = codes "secret";
  gitlab_verify_ssl = true;
  analysis_branch = codes "uat";
  refresh_interval = some 300;
  visualization_port = 8080;
}

deployed_accepted : build_config latin deployed ≡ inr deployed_config
unfolding build_config validate_required_url validate_required_non_empty check_url is_blank strip
    is_nil drop_while take_while validate_gitlab_verify_ssl validate_analysis_branch
    validate_refresh_interval parse_duration scaled unit_seconds timedelta int digits_value is_digit
    check_interval validate_visualization_port read_port all_digits check_port
deployed_accepted = refl

build_config-IsUsable_example : IsUsable latin deployed_config
build_config-IsUsable_example =
    build_config-IsUsable latin deployed deployed_config deployed_accepted
