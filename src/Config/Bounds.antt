-- ===== src/Config/Bounds.antt =====
-- The configurations that the validators of src/project_knowledge_mcp/config.py accept.
use gitlab_knowledege.Common.{
  ℕ, ◌≤◌, ◌≡◌, refl, false, Option, some, Text, codes, arith, ◌==◌, inl, inr, ◌⊎◌, String,
  Bool-cases, Option-cases, [], ◌∷◌,
}
use gitlab_knowledege.Config.{
  Runtime, Config, Result, ◌>>=◌, Env, is_blank, validate_required_non_empty, check_url,
  validate_required_url, validate_gitlab_verify_ssl, validate_analysis_branch, check_port,
  read_port, validate_visualization_port, parse_duration, check_interval, validate_refresh_interval,
  build_config, all_digits, int,
}

-- A step that gave a value: what came before it did too.
bind-eq-inr :
    {A B : Type 0} (r : Result A) (f : A → Result B) {b : B}
    → (r >>= f) ≡ inr b
    → (a : A) × (r ≡ inr a) × (f a ≡ inr b)
bind-eq-inr (inl e) f h = absurd (ground arith)
bind-eq-inr (inr a) f h = (a, refl, h)

module _ (py : Runtime) where
  required_not_blank :
      (env : Env) (variable key : String) {t : Text}
      → validate_required_non_empty py env variable key ≡ inr t
      → is_blank py t ≡ false
  unfolding validate_required_non_empty
  required_not_blank env variable key h = elim (Option-cases (env variable)) [
    | inl e ↦ absurd (ground arith)
    | inr (raw, e) ↦ ground arith
  ]

  check_port-eq-inr : (n : ℕ) {p : ℕ} → check_port py n ≡ inr p → (1 ≤ p) × (p ≤ 65535)
  unfolding check_port
  check_port-eq-inr n h = ground arith

  read_port-eq-inr : (t : Text) {p : ℕ} → read_port py t ≡ inr p → (1 ≤ p) × (p ≤ 65535)
  unfolding read_port
  read_port-eq-inr [] h = absurd (ground arith)
  read_port-eq-inr (c ∷ t) {p} h = elim (Bool-cases (c == 45)) [
    | inl minus ↦
        let h' = rw minus at h in
        elim (Bool-cases (all_digits py t)) [
          | inl digits ↦
              let (n, read, checked) =
                bind-eq-inr (int py t) (λ n. check_port py 0) (rw digits at h') in
              check_port-eq-inr 0 checked
          | inr other ↦ let h'' = rw other at h' in absurd (ground arith)
        ]
    | inr plain ↦
        let h' = rw plain at h in
        elim (Bool-cases (all_digits py (c ∷ t))) [
          | inl digits ↦
              let (n, read, checked) =
                bind-eq-inr (int py (c ∷ t)) (check_port py) (rw digits at h') in
              check_port-eq-inr n checked
          | inr other ↦ let h'' = rw other at h' in absurd (ground arith)
        ]
  ]

  port_bounds :
      (env : Env) {p : ℕ} → validate_visualization_port py env ≡ inr p → (1 ≤ p) × (p ≤ 65535)
  unfolding validate_visualization_port
  port_bounds env {p} h = elim (Option-cases (env "VISUALIZATION_PORT")) [
    | inl e ↦ ground arith
    | inr (raw, e) ↦ elim (Bool-cases (is_blank py raw)) [
      | inl blank ↦ ground arith
      | inr given ↦ read_port-eq-inr raw (ground arith)
    ]
  ]

  interval_bounds :
      (env : Env) {o : Option ℕ} (n : ℕ)
      → validate_refresh_interval py env ≡ inr o
      → o ≡ some n
      → 60 ≤ n
  unfolding validate_refresh_interval check_interval
  interval_bounds env {o} n h same = elim (Option-cases (env "REFRESH_INTERVAL")) [
    | inl e ↦ absurd (ground arith)
    | inr (raw, e) ↦ elim (Bool-cases (is_blank py raw)) [
      | inl blank ↦ absurd (ground arith)
      | inr given ↦
          let h' : (parse_duration py raw >>= check_interval py) ≡ inr o = ground arith in
          let (found, read, checked) = bind-eq-inr (parse_duration py raw) (check_interval py) h' in
          ground arith
    ]
  ]

  branch_not_blank :
      (env : Env) {t : Text}
      → validate_analysis_branch py env ≡ inr t
      → (t ≡ codes "uat") ⊎ (is_blank py t ≡ false)
  unfolding validate_analysis_branch
  branch_not_blank env h = elim (Option-cases (env "ANALYSIS_BRANCH")) [
    | inl e ↦ inl (ground arith)
    | inr (raw, e) ↦ inr (ground arith)
  ]

  -- What the other components rely on.
  pub record IsUsable (c : Config) : Type 0 where
    pub url_given : is_blank py c.gitlab_base_url ≡ false
    pub group_given : is_blank py c.gitlab_group_path ≡ false
    pub token_given : is_blank py c.gitlab_access_token ≡ false
    pub branch_given : (c.analysis_branch ≡ codes "uat") ⊎ (is_blank py c.analysis_branch ≡ false)
    pub interval_long : (n : ℕ) → c.refresh_interval ≡ some n → 60 ≤ n
    pub port_low : 1 ≤ c.visualization_port
    pub port_high : c.visualization_port ≤ 65535

  url_not_blank :
      (env : Env) (variable key : String) {t : Text}
      → validate_required_url py env variable key ≡ inr t
      → is_blank py t ≡ false
  unfolding validate_required_url check_url
  url_not_blank env variable key {t} h =
      let (raw, given, checked) =
        bind-eq-inr (validate_required_non_empty py env variable key) (check_url py key) h in
      let same : raw ≡ t = ground arith in rw (← same) (required_not_blank env variable key given)

  -- An environment that is accepted gives a configuration whose URL, group and token are not
  -- blank, whose branch is the default or not blank, whose interval, if any, is at least 60
  -- seconds, and whose port is between 1 and 65535.
  pub build_config-IsUsable : (env : Env) (c : Config) → build_config py env ≡ inr c → IsUsable c
  unfolding build_config
  build_config-IsUsable env c h =
      let (url, a, h₁) =
        bind-eq-inr (validate_required_url py env "GITLAB_BASE_URL" "gitlab.base_url") _ h in
      let (group, b, h₂) =
        bind-eq-inr (validate_required_non_empty py env "GITLAB_GROUP_PATH" "gitlab.group_path") _
          h₁ in
      let (token, d, h₃) =
        bind-eq-inr (validate_required_non_empty py env "GITLAB_ACCESS_TOKEN" "gitlab.access_token")
          _ h₂ in
      let (ssl, e, h₄) = bind-eq-inr (validate_gitlab_verify_ssl py env) _ h₃ in
      let (branch, f, h₅) = bind-eq-inr (validate_analysis_branch py env) _ h₄ in
      let (interval, g, h₆) = bind-eq-inr (validate_refresh_interval py env) _ h₅ in
      let (port, i, h₇) = bind-eq-inr (validate_visualization_port py env) _ h₆ in
      let same : record {
        gitlab_base_url = url;
        gitlab_group_path = group;
        gitlab_access_token = token;
        gitlab_verify_ssl = ssl;
        analysis_branch = branch;
        refresh_interval = interval;
        visualization_port = port;
      }
          ≡ c =
        ground arith in
      rw (← same) (record {
        url_given = url_not_blank env _ _ a;
        group_given = required_not_blank env _ _ b;
        token_given = required_not_blank env _ _ d;
        branch_given = branch_not_blank env f;
        interval_long = λ n. interval_bounds env n g;
        port_low = (port_bounds env i).0;
        port_high = (port_bounds env i).1;
      })
