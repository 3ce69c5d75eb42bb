-- ===== src/Store/Reader/Answers.antt =====
-- The readers of src/project_knowledge_mcp/knowledge_store.py on two stores with one view.
use gitlab_knowledege.Common.{
  ℕ, String, ◌≡◌, refl, sym, ap, ◌∙◌, Bool, Option, none, some, List, [], ◌∷◌, ◌⊎◌, inl, inr,
}
use gitlab_knowledege.Exec.{Error, Exec, pure, raise, ◌>>=◌}
use gitlab_knowledege.Exec.Inversion.{bind_assoc}
use gitlab_knowledege.Models.{ProjectProfile}
use gitlab_knowledege.Store.Invariant.{SameView}
use gitlab_knowledege.Store.Rows.{scan, select, order_by_id}
use gitlab_knowledege.Store.Rows.Laws.{get, select-eq-get}
use gitlab_knowledege.Store.Tables.{
  SnapshotRow, ProfileCells, Tables, KnowledgeStore, find_snapshot,
}
use gitlab_knowledege.Store.Writer.{Codec}
use gitlab_knowledege.Store.Reader.{
  pointer_of, get_current_snapshot_id, rehydrated, rehydrate_row, get_profile_in, get_profile,
  rehydrate_rows, list_profiles_in, list_profiles, metadata_rows, metadata_of, snapshot_metadata_in,
  get_snapshot_metadata,
}
use gitlab_knowledege.Store.Reader.Views.{
  store, answer, answer_of_Alike, Uniform, Uniform-pure, Uniform-raise, Uniform-bind,
  Uniform-execute, Uniform-read_guard, Uniform-read, Uniform-read_then,
}

module _ {t u : Tables} where
  rehydrated-Uniform : (v : String ⊎ ProjectProfile) → Uniform t u (rehydrated v)
  unfolding rehydrated
  rehydrated-Uniform (inl why) = Uniform-raise _
  rehydrated-Uniform (inr profile) = Uniform-pure profile

  rehydrate_row-Uniform :
      (codec : Codec) (o : Option ProfileCells) → Uniform t u (rehydrate_row codec o)
  unfolding rehydrate_row
  rehydrate_row-Uniform codec none = Uniform-pure none
  rehydrate_row-Uniform codec (some cells) =
      Uniform-bind _ _ (rehydrated-Uniform (codec.validate cells.profile_json))
        (λ profile. Uniform-pure (some profile))

  rehydrate_rows-Uniform :
      (codec : Codec) (rows : List (ℕ × ProfileCells)) → Uniform t u (rehydrate_rows codec rows)
  unfolding rehydrate_rows
  rehydrate_rows-Uniform codec [] = Uniform-pure []
  rehydrate_rows-Uniform codec ((p, cells) ∷ rows) =
      Uniform-bind _ _ (rehydrated-Uniform (codec.validate cells.profile_json)) (λ profile.
        Uniform-bind (rehydrate_rows codec rows) _ (rehydrate_rows-Uniform codec rows)
          (λ profiles. Uniform-pure (profile ∷ profiles)))

-- The pointer is read first; what follows may use the value that it has.
module _ {t u : Tables} (same : SameView t u) where
  pointed-Uniform :
      {A : Type 0} (f : Option ℕ → Exec KnowledgeStore A) (o : Option (Option ℕ))
      → t.current_snapshot ≡ o
      → Uniform t u (f none)
      → ((s : ℕ) → t.current_snapshot ≡ some (some s) → Uniform t u (f (some s)))
      → Uniform t u (pointer_of o >>= f)
  unfolding pointer_of ◌>>=◌ pure raise
  pointed-Uniform f none e kn ks = Uniform-raise _
  pointed-Uniform f (some none) e kn ks = kn
  pointed-Uniform f (some (some s)) e kn ks = ks s e

  pub current_then-Uniform :
      {A : Type 0} (f : Option ℕ → Exec KnowledgeStore A)
      → Uniform t u (f none)
      → ((s : ℕ) → t.current_snapshot ≡ some (some s) → Uniform t u (f (some s)))
      → Uniform t u (get_current_snapshot_id >>= f)
  unfolding get_current_snapshot_id
  current_then-Uniform f kn ks = rw bind_assoc (
      Uniform-read_then (λ x. x.current_snapshot) _ (sym same.current)
        (pointed-Uniform f t.current_snapshot refl kn ks))

  get_profile-Uniform : (codec : Codec) (p : ℕ) → Uniform t u (get_profile codec p)
  unfolding get_profile
  get_profile-Uniform codec p =
      current_then-Uniform (get_profile_in codec p) (Uniform-pure none) (λ s e.
        Uniform-bind _ (rehydrate_row codec)
          (Uniform-read (λ x. select s p x.project_profiles)
            (select-eq-get s p t.project_profiles
              ∙ ap (get p) (sym (same.profiles s e))
              ∙ sym (select-eq-get s p u.project_profiles)))
          (rehydrate_row-Uniform codec))

  list_profiles-Uniform : (codec : Codec) → Uniform t u (list_profiles codec)
  unfolding list_profiles
  list_profiles-Uniform codec =
      current_then-Uniform (list_profiles_in codec) (Uniform-pure []) (λ s e.
        Uniform-bind _ (rehydrate_rows codec)
          (Uniform-read (λ x. order_by_id (scan s x.project_profiles))
            (ap order_by_id (sym (same.profiles s e))))
          (rehydrate_rows-Uniform codec))

  metadata_rows-Uniform :
      (s : ℕ) → t.current_snapshot ≡ some (some s) → Uniform t u (metadata_rows s)
  unfolding metadata_rows
  metadata_rows-Uniform s e =
      Uniform-bind _ _
        (Uniform-execute (λ x. find_snapshot s x.snapshots) (sym (same.snapshots s e)))
        (λ found.
          Uniform-bind _ _
            (Uniform-execute (λ x. scan s x.project_profiles) (sym (same.profiles s e)))
            (λ rows. Uniform-pure (found, rows)))

  metadata_of-Uniform :
      (s : ℕ) (o : Option SnapshotRow) (rows : List (ℕ × ProfileCells))
      → Uniform t u (metadata_of s o rows)
  unfolding metadata_of
  metadata_of-Uniform s none rows = Uniform-raise _
  metadata_of-Uniform s (some r) rows = Uniform-pure _

  get_snapshot_metadata-Uniform : Uniform t u get_snapshot_metadata
  unfolding get_snapshot_metadata
  get_snapshot_metadata-Uniform =
      current_then-Uniform snapshot_metadata_in (Uniform-pure none) (λ s e.
        Uniform-bind _ _ (Uniform-read_guard (metadata_rows s) (metadata_rows-Uniform s e))
          (λ found. metadata_of-Uniform s found.0 found.1))

  -- On two stores whose tables have the same view, both open or both closed and with the same
  -- faults to come, get_profile, list_profiles and get_snapshot_metadata give the same value or
  -- raise the same exception.
  pub answers-SameView :
      (codec : Codec) (p : ℕ) (b : Bool) (fs : List (Option Error))
      → (answer (get_profile codec p (store t b fs)) ≡ answer (get_profile codec p (store u b fs)))
        × (answer (list_profiles codec (store t b fs))
            ≡ answer (list_profiles codec (store u b fs)))
        × (answer (get_snapshot_metadata (store t b fs))
            ≡ answer (get_snapshot_metadata (store u b fs)))
  answers-SameView codec p b fs = (
    answer_of_Alike ((get_profile-Uniform codec p).at b fs),
    answer_of_Alike ((list_profiles-Uniform codec).at b fs),
    answer_of_Alike (get_snapshot_metadata-Uniform.at b fs),
  )
