-- ===== src/Config.antt =====
-- src/project_knowledge_mcp/config.py: the validators, and the order in which they run. The
-- environment is a function from a variable's name to its value, if it is set. An interval is a
-- number of seconds.
pub mod Bounds
use gitlab_knowledege.Common.{
  ℕ, suc, ◌*◌, ◌+◌, ◌/◌, String, Bool, true, false, Option, none, some, List, [], ◌∷◌, ◌++◌, ◌&&◌,
  ◌||◌, not, ◌==◌, ltb, if◌then◌else◌, length, Text, codes, eq_text, member_of, strip_right, ◌⊎◌,
  inl, inr, map,
}

-- What the interpreter brings: `str.lower`, the white space of `str.strip` and `\s`, the decimal
-- digits of `\d` and `int`, and `urlsplit`, with the scheme and the netloc, or `none` for its
-- ValueError.
pub record Runtime : Type 0 where
  pub lower : Text → Text
  pub is_space : ℕ → Bool
  pub digit : ℕ → Option ℕ
  pub urlsplit : Text → Option (Text × Text)

-- A ConfigError with its key and reason, and the exceptions of the calls that the validators make.
pub data Failure : Type 0 where
  config_error : String → String → Failure
  value_error overflow_error : Failure

pub record Config : Type 0 where
  pub gitlab_base_url : Text
  pub gitlab_group_path : Text
  pub gitlab_access_token : Text
  pub gitlab_verify_ssl : Bool
  pub analysis_branch : Text
  pub refresh_interval : Option ℕ
  pub visualization_port : ℕ

abbrev pub Result : Type 0 → Type 0
Result A = Failure ⊎ A

module _ {A B : Type 0} where
  infixl 5 ◌>>=◌
  abbrev pub ◌>>=◌ : Result A → (A → Result B) → Result B
  inl e >>= f = inl e
  inr a >>= f = f a

abbrev pub Env : Type 0
Env = String → Option Text

unfoldable pub drop_while : (ℕ → Bool) → Text → Text
drop_while test [] = []
drop_while test (c ∷ t) = let rest = drop_while test t in if test c then rest else c ∷ t

unfoldable pub take_while : (ℕ → Bool) → Text → Text
take_while test [] = []
take_while test (c ∷ t) = let rest = take_while test t in if test c then c ∷ rest else []

unfoldable pub is_nil : Text → Bool
is_nil [] = true
is_nil (c ∷ t) = false

-- _DURATION_UNIT_SECONDS, on what is left after the digits and the white space
unfoldable pub unit_seconds : Text → Option ℕ
unit_seconds [] = some 1
unit_seconds (c ∷ []) =
    if c == 115
    then some 1
    else if c == 109
    then some 60
    else if c == 104
    then some 3600
    else if c == 100
    then some 86400
    else none
unit_seconds (c ∷ d ∷ t) = none

-- timedelta(seconds=n): at most 999999999 days
unfoldable pub timedelta : ℕ → Result ℕ
timedelta n = if ltb 999999999 (n / 86400) then inl overflow_error else inr n

module _ (py : Runtime) where
  unfoldable pub is_digit : ℕ → Bool
  is_digit c = elim (py.digit c) [ none ↦ false | some d ↦ true ]

  unfoldable pub strip : Text → Text
  strip t = strip_right py.is_space (drop_while py.is_space t)

  unfoldable pub is_blank : Text → Bool
  is_blank t = is_nil (strip t)

  unfoldable pub digits_value : ℕ → Text → ℕ
  digits_value n [] = n
  digits_value n (c ∷ t) = digits_value (elim (py.digit c) [ none ↦ n | some d ↦ 10 * n + d ]) t

  -- int(t) for digits t: more than 4300 of them are refused
  unfoldable pub int : Text → Result ℕ
  int t = if ltb 4300 (length t) then inl value_error else inr (digits_value 0 t)

  unfoldable pub validate_required_non_empty : Env → String → String → Result Text
  validate_required_non_empty env variable key = elim (env variable) [
    | none ↦ inl (config_error key "is required")
    | some raw ↦ if is_blank raw then inl (config_error key "must not be empty") else inr raw
  ]

  unfoldable pub check_url : String → Text → Result Text
  check_url key raw = elim (py.urlsplit raw) [
    | none ↦ inl value_error
    | some parsed ↦
        if not (member_of parsed.0 (codes "http" ∷ codes "https" ∷ []))
        then inl (config_error key "must be an http:// or https:// URL")
        else if is_nil parsed.1
        then inl (config_error key "must include a host")
        else inr raw
  ]

  unfoldable pub validate_required_url : Env → String → String → Result Text
  validate_required_url env variable key =
      validate_required_non_empty env variable key >>= check_url key

  unfoldable pub validate_gitlab_verify_ssl : Env → Result Bool
  validate_gitlab_verify_ssl env = elim (env "GITLAB_VERIFY_SSL") [
    | none ↦ inr true
    | some raw ↦
        if is_blank raw
        then inr true
        else if member_of (py.lower (strip raw)) (map codes ("true" ∷ "1" ∷ "yes" ∷ "on" ∷ []))
        then inr true
        else if member_of (py.lower (strip raw)) (map codes ("false" ∷ "0" ∷ "no" ∷ "off" ∷ []))
        then inr false
        else inl (config_error "gitlab.verify_ssl" "must be one of true/false, 1/0, yes/no, on/off")
  ]

  unfoldable pub validate_analysis_branch : Env → Result Text
  validate_analysis_branch env = elim (env "ANALYSIS_BRANCH") [
    | none ↦ inr (codes "uat")
    | some raw ↦
        if is_blank raw then inl (config_error "analysis.branch" "must not be empty") else inr raw
  ]

  -- re.fullmatch(r"\d+", t)
  unfoldable pub all_digits : Text → Bool
  all_digits t = not (is_nil t) && is_nil (drop_while is_digit t)

  unfoldable pub check_port : ℕ → Result ℕ
  check_port port =
      if ltb port 1 || ltb 65535 port
      then inl (config_error "visualization.port" "must be in the range 1 to 65535")
      else inr port

  -- The number after an optional minus sign; a negative one is below the range, as 0 is.
  unfoldable pub read_port : Text → Result ℕ
  read_port [] = inl (config_error "visualization.port" "must be an integer")
  read_port (c ∷ t) =
      if c == 45
      then (if all_digits t
          then int t >>= (λ n. check_port 0)
          else inl (config_error "visualization.port" "must be an integer"))
      else if all_digits (c ∷ t)
      then int (c ∷ t) >>= check_port
      else inl (config_error "visualization.port" "must be an integer")

  unfoldable pub validate_visualization_port : Env → Result ℕ
  validate_visualization_port env = elim (env "VISUALIZATION_PORT") [
    | none ↦ inr 7345
    | some raw ↦ if is_blank raw then inr 7345 else read_port raw
  ]

  unfoldable pub scaled : Text → Option ℕ → Result (Option ℕ)
  scaled digits none = inr none
  scaled digits (some seconds) =
      int digits >>= (λ value. timedelta (value * seconds) >>= (λ n. inr (some n)))

  -- `_DURATION_RE`: white space, digits, white space, an optional unit, white space. No character
  -- is of two of these kinds, so the greedy match is the only one.
  unfoldable pub parse_duration : Text → Result (Option ℕ)
  parse_duration raw =
      let body = drop_while py.is_space raw in
      let digits = take_while is_digit body in
      let unit = strip (drop_while is_digit body) in
      if is_nil digits then inr none else scaled digits (unit_seconds unit)

  unfoldable pub check_interval : Option ℕ → Result (Option ℕ)
  check_interval none =
      inl (config_error "refresh.interval" "must be a duration like '60s', '5m', '1h'")
  check_interval (some n) =
      if ltb n 60
      then inl (config_error "refresh.interval" "must be at least 1 minute")
      else inr (some n)

  unfoldable pub validate_refresh_interval : Env → Result (Option ℕ)
  validate_refresh_interval env = elim (env "REFRESH_INTERVAL") [
    | none ↦ inr none
    | some raw ↦ if is_blank raw then inr none else parse_duration raw >>= check_interval
  ]

  unfoldable pub build_config : Env → Result Config
  build_config env = do
    base_url ← validate_required_url env "GITLAB_BASE_URL" "gitlab.base_url"
    group_path ← validate_required_non_empty env "GITLAB_GROUP_PATH" "gitlab.group_path"
    access_token ← validate_required_non_empty env "GITLAB_ACCESS_TOKEN" "gitlab.access_token"
    verify_ssl ← validate_gitlab_verify_ssl env
    branch ← validate_analysis_branch env
    interval ← validate_refresh_interval env
    port ← validate_visualization_port env
    inr (record {
      gitlab_base_url = base_url;
      gitlab_group_path = group_path;
      gitlab_access_token = access_token;
      gitlab_verify_ssl = verify_ssl;
      analysis_branch = branch;
      refresh_interval = interval;
      visualization_port = port;
    })
