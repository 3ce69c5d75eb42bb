-- ===== src/Connector/Pages.antt =====
-- The pages that `_paginate` of src/project_knowledge_mcp/gitlab_connector.py reads, and what it
-- makes of answers that hold none.
use gitlab_knowledege.Common.{
  ℕ, zero, suc, ◌+◌, ◌≤◌, ◌<◌, ◌≡◌, refl, ◌∙◌, false, Option, some, none, List, [], ◌∷◌, ◌++◌, Text,
  arith, length,
}
use gitlab_knowledege.Exec.{returned, Exec, pure, ◌>>=◌}
use gitlab_knowledege.Exec.Inversion.{bind_run}
use gitlab_knowledege.Connector.Urls.{parse_link_next, build_url}
use gitlab_knowledege.Connector.Client.{
  Params, Response, Library, GitLabConnector, get, get_absolute, items_from_response, paginate,
  for_each, follow_links, rest_of_pages, probe_pages, no_check, with_page_size, prepend,
  auth_headers, page_params,
}
use gitlab_knowledege.Connector.Paths.{is_empty_path}
use gitlab_knowledege.Connector.Contents.{
  tree_entries, tree_params, collect_blob_paths, contents_with, contents_of,
  fetch_repository_contents,
}

abbrev pub concat : {A : Type 0} → List (List A) → List A
concat [] = []
concat (xs ∷ xss) = xs ++ concat xss

module _ {W J : Type 0} (lib : Library W J) (c : GitLabConnector) where
  -- The answers when the next links are followed from here: the items of each page.
  pub data Linked : Option Text → W → List (List J) → W → Type 0 where
    last :
        {next : Option Text} {w w' : W} {pages : List (List J)}
        → next ≡ none
        → pages ≡ []
        → w ≡ w'
        → Linked next w pages w'
    more :
        {next : Option Text} {w w' : W} {pages : List (List J)} (url : Text) (r : Response J)
        (v : W) (rest : List (List J))
        → next ≡ some url
        → get_absolute lib c url w ≡ returned r v
        → Linked (parse_link_next lib.is_space r.link) v rest w'
        → pages ≡ items_from_response lib c r ∷ rest
        → Linked next w pages w'

  -- The answers to page n and those behind it, up to a page without items.
  pub data Numbered (path : Text) (params : Params) : ℕ → W → List (List J) → W → Type 0 where
    empty :
        {n : ℕ} {w w' : W} {pages : List (List J)} (r : Response J)
        → get lib c path (page_params params n) w ≡ returned r w'
        → items_from_response lib c r ≡ []
        → pages ≡ []
        → Numbered path params n w pages w'
    full :
        {n : ℕ} {w w' : W} {pages : List (List J)} (r : Response J) (v : W) (item : J)
        (items : List J) (rest : List (List J))
        → get lib c path (page_params params n) w ≡ returned r v
        → items_from_response lib c r ≡ item ∷ items
        → Numbered path params (n + 1) v rest w'
        → pages ≡ (item ∷ items) ∷ rest
        → Numbered path params n w pages w'

  abbrev pub Behind : Text → Params → Option Text → W → List (List J) → W → Type 0
  Behind path params (some header) w pages w' =
      Linked (parse_link_next lib.is_space (some header)) w pages w'
  Behind path params none w pages w' = Numbered path params 2 w pages w'

  collect : J → Exec W (List J)
  collect item = pure (item ∷ [])

  collected : (items : List J) (w : W) → for_each lib c collect items w ≡ returned items w
  unfolding for_each collect pure
  collected [] w = refl
  collected (item ∷ items) w =
      bind_run (for_each lib c collect items) (λ more. pure (item ∷ more)) (collected items w)

  -- One page, and then the others.
  page_and_rest :
      (items : List J) (rest : Exec W (Option (List J))) (w v : W) (found : List J)
      → rest w ≡ returned (some found) v
      → (for_each lib c collect items >>= λ xs. rest >>= λ more. pure (prepend lib c xs more)) w
        ≡ returned (some (items ++ found)) v
  unfolding pure
  page_and_rest items rest w v found e =
      bind_run (for_each lib c collect items) (λ xs. rest >>= λ more. pure (prepend lib c xs more))
        (collected items w)
      ∙ bind_run rest (λ more. pure (prepend lib c items more)) e

  followed :
      (fuel : ℕ) (next : Option Text) (w w' : W) (pages : List (List J))
      → length pages ≤ fuel
      → Linked next w pages w'
      → follow_links lib c (no_check lib c) collect fuel next w ≡ returned (some (concat pages)) w'
  unfolding follow_links no_check
  followed zero next w w' pages h (last e p same) = rw (e, p, same)
  followed (suc fuel) next w w' pages h (last e p same) = rw (e, p, same)
  followed zero next w w' pages h (more url r v rest e a l p) =
      let h' = rw p at h in absurd (omega arith)
  followed (suc fuel) next w w' pages h (more url r v rest e a l p) =
      rw (e, p)
        (bind_run (get_absolute lib c url) _ a
          ∙ page_and_rest (items_from_response lib c r) _ v w' (concat rest)
              (followed fuel _ v w' rest (let h' = rw p at h in omega arith) l))

  probed :
      (path : Text) (params : Params) (fuel n : ℕ) (w w' : W) (pages : List (List J))
      → length pages < fuel
      → Numbered path params n w pages w'
      → probe_pages lib c (no_check lib c) collect fuel path params n w
        ≡ returned (some (concat pages)) w'
  unfolding probe_pages no_check pure
  probed path params zero n w w' pages h l = absurd (omega arith)
  probed path params (suc fuel) n w w' pages h (empty r a e p) =
      rw p (bind_run (get lib c path (page_params params n)) _ a ∙ rw e)
  probed path params (suc fuel) n w w' pages h (full r v item items rest a e l p) = rw p (
      bind_run (get lib c path (page_params params n)) _ a
      ∙ rw e (
          page_and_rest (item ∷ items) _ v w' (concat rest)
            (probed path params fuel (n + 1) v w' rest (let h' = rw p at h in omega arith) l)))

  behind :
      (fuel : ℕ) (path : Text) (params : Params) (link : Option Text) (w w' : W)
      (pages : List (List J))
      → length pages < fuel
      → Behind path params link w pages w'
      → rest_of_pages lib c (no_check lib c) collect fuel path params link w
        ≡ returned (some (concat pages)) w'
  unfolding rest_of_pages
  behind fuel path params (some header) w w' pages h l =
      followed fuel (parse_link_next lib.is_space (some header)) w w' pages (omega arith) l
  behind fuel path params none w w' pages h l = probed path params fuel 2 w w' pages h l

  -- If the answers to the first request and, along the next links or by page numbers up to a page
  -- without items, to those behind it are known, and the fuel is above the number of those other
  -- pages, then _paginate returns the items of the first page and of all the others, in order.
  pub paginate_all :
      (fuel : ℕ) (path : Text) (params : Params) (w v w' : W) (r : Response J)
      (pages : List (List J))
      → get lib c path (with_page_size lib c params) w ≡ returned r v
      → Behind path (with_page_size lib c params) r.link v pages w'
      → length pages < fuel
      → paginate lib c fuel path params w
        ≡ returned (some (items_from_response lib c r ++ concat pages)) w'
  unfolding paginate collect
  paginate_all fuel path params w v w' r pages first others h =
      bind_run (get lib c path (with_page_size lib c params)) _ first
      ∙ page_and_rest (items_from_response lib c r)
          (rest_of_pages lib c (no_check lib c) collect fuel path (with_page_size lib c params)
            r.link)
          v w' (concat pages)
          (behind fuel path (with_page_size lib c params) r.link v w' pages h others)

  -- Every request is answered with this status, no `Link` header and no JSON list.
  pub record Refuses (status : ℕ) : Type 0 where
    pub answers :
        (url : Text) (params headers : Params) (w : W)
        → (r : Response J) × (v : W) × (lib.get url params headers w ≡ returned r v)
          × (r.status_code ≡ status)
          × (r.link ≡ none)
          × (items_from_response lib c r ≡ [])

  refused_pages :
      (status fuel : ℕ) (path : Text) (params : Params) (w : W)
      → Refuses status
      → (v : W) × (paginate lib c (suc fuel) path params w ≡ returned (some []) v)
  unfolding get
  refused_pages status fuel path params w refuses =
      let merged = with_page_size lib c params in
      let ask = λ (ps : Params) (u : W).
        refuses.answers (build_url c.base_url path) ps (auth_headers lib c) u in
      let (r, v, e, s, l, i) = ask merged w in
      let (r₂, v₂, e₂, s₂, l₂, i₂) = ask (page_params merged 2) v in
      (
        v₂,
        paginate_all (suc fuel) path params w v v₂ r [] e (rw l (empty r₂ e₂ i₂ refl)) (omega arith)
            ∙ rw i,
      )

  -- If every request is answered with one status, whichever it is, without a Link header and
  -- without a JSON list, then, for a commit SHA that is not empty, fetch_repository_contents
  -- returns contents without files.
  pub refused_tree_is_empty :
      (status fuel project_id : ℕ) (commit_sha : Text) (w : W)
      → is_empty_path commit_sha ≡ false
      → Refuses status
      → (v : W) × (fetch_repository_contents lib c (suc fuel) project_id commit_sha w
          ≡ returned
              (some (record { project_id = project_id; commit_sha = commit_sha; files = [] }))
              v)
  unfolding fetch_repository_contents contents_of contents_with collect_blob_paths tree_entries
  refused_tree_is_empty status fuel project_id commit_sha w filled refuses =
      let (v, e) = refused_pages status fuel _ (tree_params lib c commit_sha) w refuses in
      (
        v,
        bind_run (tree_entries lib c (suc fuel) project_id commit_sha)
              (contents_of lib c project_id commit_sha) e
            ∙ rw filled,
      )
