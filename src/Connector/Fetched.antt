-- ===== src/Connector/Fetched.antt =====
-- What `fetch_repository_contents` of src/project_knowledge_mcp/gitlab_connector.py returns.
pub mod Entries
use mathlib.Core.Path.{subst}
use gitlab_knowledege.Common.{
  eq_text_sound, ℕ, suc, ◌+◌, ◌≤◌, ◌≡◌, refl, sym, ap, true, Option, some, none, List, [], ◌∷◌,
  Text, ◌==◌, eq_text, arith, All, inl, inr, Bool-cases, member_of, length,
}
use gitlab_knowledege.Exec.{returned, pure, raise, ◌>>=◌}
use gitlab_knowledege.Exec.Inversion.{bind_returned}
use gitlab_knowledege.Connector.Client.{
  Response, Library, GitLabConnector, get, raise_for_auth, raise_for_status,
}
use gitlab_knowledege.Connector.Selection.{leb_text, admission, capped_paths, max_analyzable_files}
use gitlab_knowledege.Connector.Selection.Order.{Ascending}
use gitlab_knowledege.Connector.Selection.Laws.{capped_paths-IsSelection}
use gitlab_knowledege.Connector.Contents.{
  Files, FetchedContents, max_file_size_bytes, put_file, put_if_text, blob_paths, tree_entries,
  text_of_body, raw_path, read_blob, fetch_blob_text, fetch_blobs, contents_with, contents_of,
  collect_blob_paths, all_dicts, fetch_repository_contents,
}
pub use gitlab_knowledege.Connector.Fetched.Entries.{keys}
use gitlab_knowledege.Connector.Fetched.Entries.{
  put_file-All, put_file-Ascending, length-put_file, put_file-entries, heads,
}

module _ {W J : Type 0} (lib : Library W J) (c : GitLabConnector) where
  -- The text of a file is the decoding of a body that is not too large.
  abbrev pub IsText : Text → Type 0
  IsText text =
      (body : List ℕ) × (length body ≤ max_file_size_bytes) × (lib.decode body ≡ some text)

  text_of_body-IsText :
      (body : List ℕ) (text : Text) → text_of_body lib c body ≡ some text → IsText text
  unfolding text_of_body
  text_of_body-IsText body text h = (body, ground arith, ground arith)

  read_blob-IsText :
      (r : Response J) (w w' : W) (text : Text)
      → read_blob lib c r w ≡ returned (some text) w'
      → IsText text
  unfolding read_blob
  read_blob-IsText r w w' text h =
      bind_returned (raise_for_auth lib c r) _ w (some text) w' h λ _ w₁ allowed rest.
        elim (Bool-cases (r.status_code == 404)) [
          | inl e ↦ let rest' = rw e at rest in absurd (no_text w₁ rest')
          | inr e ↦
              bind_returned (raise_for_status lib c r) _ w₁ (some text) w' (rw e at rest)
                λ _ w₂ fine last. text_of_body-IsText r.content text (same_text w₂ last)
        ]
    where
      no_text : (v : W) → pure {S = W} {A = Option Text} none v ≡ returned (some text) w' → ⊥
      no_text v e = cc

      same_text :
          (v : W)
          → pure {S = W} (text_of_body lib c r.content) v ≡ returned (some text) w'
          → text_of_body lib c r.content ≡ some text
      same_text v e = cc

  fetch_blob_text-IsText :
      (project_id : ℕ) (path commit_sha : Text) (w w' : W) (text : Text)
      → fetch_blob_text lib c project_id path commit_sha w ≡ returned (some text) w'
      → IsText text
  unfolding fetch_blob_text
  fetch_blob_text-IsText project_id path commit_sha w w' text h =
      bind_returned (get lib c (raw_path lib c project_id path) (("ref", commit_sha) ∷ []))
        (read_blob lib c) w (some text) w' h
        λ r w₁ answered rest. read_blob-IsText r w₁ w' text rest

  -- The state of the loop: the files so far, and the paths to come.
  record IsUnderway (P : Text → Type 0) (n : ℕ) (paths : List Text) (files : Files) : Type 0 where
    ascending : Ascending (keys files)
    below : All (λ k. All (λ q. leb_text k q ≡ true) paths) (keys files)
    to_come : Ascending paths
    allowed : All P paths
    sound : All (λ f. P f.0 × IsText f.1) files
    room : length files + length paths ≤ n

  after_text :
      (P : Text → Type 0) (n : ℕ) (path : Text) (paths : List Text) (files : Files)
      (text : Option Text)
      → ((t : Text) → text ≡ some t → IsText t)
      → IsUnderway P n (path ∷ paths) files
      → IsUnderway P n paths (put_if_text path text files)
  unfolding put_if_text
  after_text P n path paths files none read u =
      let room = u.room in
      record {
        ascending = u.ascending;
        below = (heads path paths (keys files) u.below).1;
        to_come = u.to_come.1;
        allowed = u.allowed.1;
        sound = u.sound;
        room = omega arith;
      }
  after_text P n path paths files (some t) read u =
      let room = u.room in
      let (before, after) = heads path paths (keys files) u.below in
      record {
        ascending = put_file-Ascending path t files u.ascending before;
        below =
            put_file-All (λ k. All (λ q. leb_text k q ≡ true) paths) path t files u.to_come.0 after;
        to_come = u.to_come.1;
        allowed = u.allowed.1;
        sound =
            put_file-entries (λ f. P f.0 × IsText f.1) path t files
              (λ p e. (subst P (sym (eq_text_sound p path e)) u.allowed.0, read t refl))
              (u.allowed.0, read t refl) u.sound;
        room = omega (arith, length-put_file path t files);
      }

  fetch_blobs-IsUnderway :
      (P : Text → Type 0) (n project_id : ℕ) (commit_sha : Text) (paths : List Text)
      (files got : Files) (w w' : W)
      → IsUnderway P n paths files
      → fetch_blobs lib c project_id commit_sha paths files w ≡ returned got w'
      → IsUnderway P n [] got
  unfolding fetch_blobs
  fetch_blobs-IsUnderway P n project_id commit_sha [] files got w w' u h =
      let same : files ≡ got = cc in rw (← same) u
  fetch_blobs-IsUnderway P n project_id commit_sha (path ∷ paths) files got w w' u h =
      bind_returned (fetch_blob_text lib c project_id path commit_sha) _ w got w' h
        λ text w₁ read rest.
          fetch_blobs-IsUnderway P n project_id commit_sha paths (put_if_text path text files) got
            w₁ w'
            (after_text P n path paths files text
              (λ t e. fetch_blob_text-IsText project_id path commit_sha w w₁ t (rw e at read)) u)
            rest

  -- What is known of the files of a repository whose tree has these blobs.
  pub record IsFetched (blobs : List Text) (files : Files) : Type 0 where
    pub ascending : Ascending (keys files)
    pub few : length files ≤ max_analyzable_files
    pub sound :
        All
          (λ f. (admission lib.lower blobs f.0 ≡ true) × (member_of f.0 blobs ≡ true) × IsText f.1)
          files

  fetch_blobs-IsFetched :
      (project_id : ℕ) (commit_sha : Text) (blobs : List Text) (got : Files) (w w' : W)
      → fetch_blobs lib c project_id commit_sha (capped_paths lib.lower blobs) [] w
        ≡ returned got w'
      → IsFetched blobs got
  fetch_blobs-IsFetched project_id commit_sha blobs got w w' h =
      let chosen = capped_paths-IsSelection lib.lower blobs in
      let few = chosen.few in
      let P = λ (p : Text). (admission lib.lower blobs p ≡ true) × (member_of p blobs ≡ true) in
      let done =
        fetch_blobs-IsUnderway P max_analyzable_files project_id commit_sha
          (capped_paths lib.lower blobs) [] got w w'
          (record {
            ascending = tt;
            below = tt;
            to_come = chosen.ascending;
            allowed = both (capped_paths lib.lower blobs) chosen.admitted chosen.listed;
            sound = tt;
            room = omega arith;
          })
          h in
      let room = done.room in
      record { ascending = done.ascending; few = omega arith; sound = flat got done.sound }
    where
      both :
          (ps : List Text)
          → All (λ p. admission lib.lower blobs p ≡ true) ps
          → All (λ p. member_of p blobs ≡ true) ps
          → All (λ p. (admission lib.lower blobs p ≡ true) × (member_of p blobs ≡ true)) ps
      both [] h k = tt
      both (p ∷ ps) (h, hs) (k, ks) = ((h, k), both ps hs ks)

      flat :
          (files : Files)
          → All
              (λ f.
                ((admission lib.lower blobs f.0 ≡ true) × (member_of f.0 blobs ≡ true))
                × IsText f.1)
              files
          → All
              (λ f.
                (admission lib.lower blobs f.0 ≡ true) × (member_of f.0 blobs ≡ true) × IsText f.1)
              files
      flat [] h = tt
      flat (f ∷ files) (((a, m), t), hs) = ((a, m, t), flat files hs)

  contents_with-same :
      (project_id : ℕ) (commit_sha : Text) (files : Files) (w w' : W) (k : FetchedContents)
      → contents_with lib c project_id commit_sha files w ≡ returned (some k) w'
      → record { project_id = project_id; commit_sha = commit_sha; files = files } ≡ k
  unfolding contents_with pure raise
  contents_with-same project_id [] files w w' k h = cc
  contents_with-same project_id (x ∷ t) files w w' k h = cc

  collected_paths :
      (listed : List J) (paths : List Text) (w w' : W)
      → collect_blob_paths lib c listed w ≡ returned paths w'
      → (w ≡ w') × (paths ≡ blob_paths lib c listed)
  unfolding collect_blob_paths pure raise
  collected_paths listed paths w w' h = elim (Bool-cases (all_dicts lib c listed)) [
    | inl e ↦ let h' = rw e at h in (cc, cc)
    | inr e ↦ let h' = rw e at h in cc
  ]

  contents_of-IsFetched :
      (project_id : ℕ) (commit_sha : Text) (entries : Option (List J)) (w w' : W)
      (k : FetchedContents)
      → contents_of lib c project_id commit_sha entries w ≡ returned (some k) w'
      → (listed : List J) × (entries ≡ some listed)
        × (k.project_id ≡ project_id)
        × (k.commit_sha ≡ commit_sha)
        × IsFetched (blob_paths lib c listed) k.files
  unfolding contents_of pure
  contents_of-IsFetched project_id commit_sha none w w' k h = cc
  contents_of-IsFetched project_id commit_sha (some listed) w w' k h =
      bind_returned (collect_blob_paths lib c listed)
        (λ paths.
          fetch_blobs lib c project_id commit_sha (capped_paths lib.lower paths) []
          >>= contents_with lib c project_id commit_sha)
        w (some k) w' h
        λ paths w₀ collected rest.
          let (here, all) = collected_paths listed paths w w₀ collected in
          bind_returned (fetch_blobs lib c project_id commit_sha (capped_paths lib.lower paths) [])
            (contents_with lib c project_id commit_sha) w₀ (some k) w' rest
            λ files w₁ got last.
              let same : record { project_id = project_id; commit_sha = commit_sha; files = files }
                  ≡ k =
                contents_with-same project_id commit_sha files w₁ w' k last in
              (
                listed,
                refl,
                ap (λ (r : FetchedContents). r.project_id) (sym same),
                ap (λ (r : FetchedContents). r.commit_sha) (sym same),
                rw (← same, ← all)
                    (fetch_blobs-IsFetched project_id commit_sha paths files w₀ w₁ got),
              )

  -- A fetch that returns contents has listed the tree, and the contents carry the project and the
  -- commit asked for and at most 5000 files, by ascending path, each the path of a blob of the
  -- tree that the rule for the repository admits, with a text that is the decoding of a body of
  -- at most 1048576 bytes.
  pub fetch_repository_contents-IsFetched :
      (fuel project_id : ℕ) (commit_sha : Text) (w w' : W) (k : FetchedContents)
      → fetch_repository_contents lib c fuel project_id commit_sha w ≡ returned (some k) w'
      → (listed : List J) × (v : W) × (tree_entries lib c fuel project_id commit_sha w
          ≡ returned (some listed) v)
        × (k.project_id ≡ project_id)
        × (k.commit_sha ≡ commit_sha)
        × IsFetched (blob_paths lib c listed) k.files
  unfolding fetch_repository_contents
  fetch_repository_contents-IsFetched fuel project_id commit_sha w w' k h =
      bind_returned (tree_entries lib c fuel project_id commit_sha)
        (contents_of lib c project_id commit_sha) w (some k) w' h
        λ entries v tree rest.
          let (listed, e, a, b, d) =
            contents_of-IsFetched project_id commit_sha entries v w' k rest in
          (listed, v, rw e at tree, a, b, d)
