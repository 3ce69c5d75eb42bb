-- ===== src/Connector/Client.antt =====
-- The requests of src/project_knowledge_mcp/gitlab_connector.py: one page, all pages, and what
-- becomes of the status codes. The HTTP client and the JSON values that it decodes are parameters.
use gitlab_knowledege.Common.{
  ℕ, zero, suc, ◌+◌, Bool, true, false, ◌||◌, Option, some, none, List, [], ◌∷◌, ◌++◌, String, Text,
  codes, ◌==◌, if◌then◌else◌, decimal, eq_text,
}
use gitlab_knowledege.Exec.{gitlab_auth, other, Exec, pure, raise, ◌>>=◌, ◌>>◌}
use gitlab_knowledege.Connector.Urls.{build_url, parse_link_next}

abbrev pub Params : Type 0
Params = List (String × Text)

-- An answer: the status, the `Link` header, the value of `json()` if it does not raise ValueError,
-- and the bytes of the body.
pub record Response (J : Type 0) : Type 0 where
  pub status_code : ℕ
  pub link : Option Text
  pub json : Option J
  pub content : List ℕ

-- What the connector uses of httpx, of the decoded values, and of the language: `isinstance` with
-- a list, a dict and a string, `.get`, `int`, `str`, `quote` with `safe=""`, `bytes.decode`, `str.lower` and the
-- white space of `\s`.
pub record Library (W J : Type 0) : Type 0 where
  pub get : Text → Params → Params → Exec W (Response J)
  pub is_success : ℕ → Bool
  pub list_of : J → Option (List J)
  pub is_dict : J → Bool
  pub string_of : J → Option String
  pub field : String → J → Option J
  pub int : J → Option ℕ
  pub to_string : J → String
  pub quote : Text → Text
  pub decode : List ℕ → Option Text
  pub lower : Text → Text
  pub is_space : ℕ → Bool

pub record GitLabConnector : Type 0 where
  pub base_url : Text
  pub access_token : Text
  pub group_path : Option String
  pub analysis_branch : Option String

-- `params[key] = value`
unfoldable pub put_param : String → Text → Params → Params
put_param key value [] = (key, value) ∷ []
put_param key value ((k, v) ∷ params) =
    let rest = put_param key value params in
    if eq_text (codes k) (codes key) then (k, value) ∷ params else (k, v) ∷ rest

unfoldable pub page_params : Params → ℕ → Params
unfolding put_param
page_params params page = put_param "page" (codes (decimal page)) params

module _ {W J : Type 0} (lib : Library W J) (c : GitLabConnector) where
  unfoldable pub auth_headers : Params
  auth_headers = ("PRIVATE-TOKEN", c.access_token) ∷ []

  unfoldable pub get : Text → Params → Exec W (Response J)
  unfolding auth_headers
  get path params = lib.get (build_url c.base_url path) params auth_headers

  unfoldable pub get_absolute : Text → Exec W (Response J)
  unfolding auth_headers
  get_absolute url = lib.get url [] auth_headers

  unfoldable pub raise_for_auth : Response J → Exec W (Unit {0})
  raise_for_auth r =
      if (r.status_code == 401) || (r.status_code == 403)
      then raise (gitlab_auth r.status_code)
      else pure tt

  -- `response.raise_for_status()`
  unfoldable pub raise_for_status : Response J → Exec W (Unit {0})
  raise_for_status r =
      if lib.is_success r.status_code then pure tt else raise (other "HTTPStatusError")

  abbrev pub items_of : Option J → List J
  items_of none = []
  items_of (some payload) = elim (lib.list_of payload) [ none ↦ [] | some items ↦ items ]

  unfoldable pub items_from_response : Response J → List J
  items_from_response r = items_of r.json

  abbrev pub no_items : List J → Bool
  no_items [] = true
  no_items (item ∷ items) = false

  abbrev pub prepend : {A : Type 0} → List A → Option (List A) → Option (List A)
  prepend found none = none
  prepend found (some more) = some (found ++ more)

  -- The loop over the items of a page; each round gives what it appends.
  unfoldable pub for_each : {A : Type 0} → (J → Exec W (List A)) → List J → Exec W (List A)
  unfolding ◌>>=◌
  for_each body [] = pure []
  for_each body (item ∷ items) = do
    found ← body item
    more ← for_each body items
    pure (found ++ more)

  module _ {A : Type 0} (check : Response J → Exec W (Unit {0})) (body : J → Exec W (List A)) where
    -- The `while` loop along the next links, with fuel for so many requests; `none` means that the
    -- fuel ran out, which has no counterpart in the program.
    unfoldable pub follow_links : ℕ → Option Text → Exec W (Option (List A))
    unfolding ◌>>=◌ for_each items_from_response get_absolute
    follow_links fuel none = pure (some [])
    follow_links zero (some url) = pure none
    follow_links (suc fuel) (some url) = do
      response ← get_absolute url
      check response
      found ← for_each body (items_from_response response)
      more ← follow_links fuel (parse_link_next lib.is_space response.link)
      pure (prepend found more)

    -- The loop over `?page=N`, up to a page without items.
    unfoldable pub probe_pages : ℕ → Text → Params → ℕ → Exec W (Option (List A))
    unfolding ◌>>=◌ for_each items_from_response get page_params
    probe_pages zero path params page = pure none
    probe_pages (suc fuel) path params page = do
      response ← get path (page_params params page)
      check response
      let items = items_from_response response
      let more = do
        found ← for_each body items
        rest ← probe_pages fuel path params (page + 1)
        pure (prepend found rest)
      if no_items items then pure (some []) else more

    -- Behind the first page: along the links if there is a `Link` header, and else by probing.
    unfoldable pub rest_of_pages : ℕ → Text → Params → Option Text → Exec W (Option (List A))
    unfolding follow_links probe_pages
    rest_of_pages fuel path params (some header) =
        follow_links fuel (parse_link_next lib.is_space (some header))
    rest_of_pages fuel path params none = probe_pages fuel path params 2

  abbrev pub has_key : String → Params → Bool
  has_key key [] = false
  has_key key ((k, v) ∷ params) = eq_text (codes k) (codes key) || has_key key params

  -- `merged.setdefault("per_page", DEFAULT_PER_PAGE)`
  unfoldable pub with_page_size : Params → Params
  with_page_size params =
      if has_key "per_page" params then params else params ++ (("per_page", codes "100") ∷ [])

  unfoldable pub no_check : Response J → Exec W (Unit {0})
  no_check response = pure tt

  -- `_paginate`, whose items the caller collects.
  unfoldable pub paginate : ℕ → Text → Params → Exec W (Option (List J))
  unfolding ◌>>=◌ for_each items_from_response get with_page_size rest_of_pages no_check
  paginate fuel path params =
      let merged = with_page_size params in
      let body = λ (item : J). pure {S = W} (item ∷ []) in
      do
        response ← get path merged
        found ← for_each body (items_from_response response)
        more ← rest_of_pages no_check body fuel path merged response.link
        pure (prepend found more)
