-- ===== src/Tests/Refreshes.antt =====
-- Examples on refreshes.
use gitlab_knowledege.Common.{ℕ, ◌≡◌, refl, List, [], some}
use gitlab_knowledege.Exec.{
  gitlab_auth, project_not_in_scope, returned, raised, final, catch, finally, ◌>>=◌,
}
use gitlab_knowledege.Store.Invariant.{IsValid, SameView, bootstrap_schema-IsValid}
use gitlab_knowledege.Store.Rows.{upsert, select, scan, insert_select, insert_rows}
use gitlab_knowledege.Store.Tables.{
  find_snapshot, next_rowid, set_status, execute, transaction, atomically, require_in_progress,
}
use gitlab_knowledege.Store.Writer.{
  coerce_trigger, check_parent, parent_exists, insert_snapshot, copy_parent, insert_and_copy,
  begin_snapshot, mark_failed, abort_snapshot, mark_completed, move_pointer, publish,
  commit_snapshot, is_empty, upsert_profile, write_profile, insert_skip, record_skip,
}
use gitlab_knowledege.Store.Reader.{read_guard, get_current_snapshot_id}
use gitlab_knowledege.Catalog.{is_in_scope, populate_in_scope, upsert_all, upsert_catalog}
use gitlab_knowledege.Catalog.Populate.{put_all}
use gitlab_knowledege.Coordinator.{try_start, end_job}
use gitlab_knowledege.Jobs.{
  World, is_gitlab_error, on_store, on_gate, on_env, read_clock, abort_now, commit_now, analyze_at,
  analyze_enumerated_projects, start_job, gitlab_failure, run_job, full_body, full_refresh,
  single_refresh_in, single_refresh, single_job, single_body, refresh_found, find_project,
}
use gitlab_knowledege.Jobs.Failure.{full_refresh_isolated, single_refresh_isolated}
use gitlab_knowledege.Jobs.Success.Single.{single_refresh_publishes}
use gitlab_knowledege.Jobs.Success.Others.{IsHonest, single_refresh_keeps_others}
use gitlab_knowledege.Store.Rows.Laws.{get}
use gitlab_knowledege.Jobs.{Wiring}
use gitlab_knowledege.Common.{◌≢◌, ◌∷◌, arith}
use gitlab_knowledege.Tests.{shop, shop_profile}
use gitlab_knowledege.Jobs.Success.Publishes.{Publishes, full_refresh_publishes}
use gitlab_knowledege.Models.{EnumeratedProject}
use gitlab_knowledege.Tests.{working, unauthorized, new_world, published, world_of}
use gitlab_knowledege.Store.Writer.{copy_profiles, copy_catalog}
use gitlab_knowledege.Tests.Stores.{published-IsValid}

abbrev refused_world : World ℕ
refused_world = final (full_refresh unauthorized new_world)

unauthorized_raises : full_refresh unauthorized new_world ≡ raised (gitlab_auth 401) refused_world
unfolding full_refresh start_job run_job full_body gitlab_failure read_clock abort_now on_store
    on_gate on_env catch finally ◌>>=◌ is_gitlab_error execute transaction atomically
    require_in_progress find_snapshot next_rowid set_status coerce_trigger check_parent
    parent_exists insert_snapshot copy_parent insert_and_copy begin_snapshot mark_failed
    abort_snapshot try_start end_job
unauthorized_raises = refl

full_refresh_isolated_example :
    IsValid refused_world.store.tables × SameView new_world.store.tables refused_world.store.tables
full_refresh_isolated_example =
    full_refresh_isolated unauthorized new_world refused_world (gitlab_auth 401)
      bootstrap_schema-IsValid unauthorized_raises

abbrev full_world : World ℕ
full_world = final (full_refresh working new_world)

working_returns : full_refresh working new_world ≡ returned tt full_world
unfolding full_refresh start_job run_job full_body read_clock commit_now on_store on_gate on_env
    catch ◌>>=◌ execute transaction atomically require_in_progress find_snapshot next_rowid
    set_status coerce_trigger check_parent parent_exists insert_snapshot copy_parent insert_and_copy
    begin_snapshot mark_completed move_pointer publish commit_snapshot is_empty upsert_profile
    write_profile insert_skip record_skip populate_in_scope upsert_all upsert_catalog upsert
    analyze_enumerated_projects analyze_at try_start end_job
working_returns = refl

full_refresh_publishes_example :
    (ps : List EnumeratedProject) × (x y : ℕ) × (working.enumerate_projects x ≡ returned ps y)
    × (s : ℕ) × Publishes s (put_all ps []) new_world.store.tables full_world.store.tables
full_refresh_publishes_example =
    full_refresh_publishes working new_world full_world bootstrap_schema-IsValid working_returns

abbrev unlisted_world : World ℕ
unlisted_world = final (single_refresh working 9 (world_of published))

unlisted_raises :
    single_refresh working 9 (world_of published) ≡ raised (project_not_in_scope 9) unlisted_world
unfolding single_refresh single_refresh_in get_current_snapshot_id read_guard on_store catch ◌>>=◌
    execute is_in_scope select
unlisted_raises = refl

single_refresh_isolated_example :
    IsValid unlisted_world.store.tables × SameView published unlisted_world.store.tables
single_refresh_isolated_example =
    single_refresh_isolated working 9 (world_of published) unlisted_world (project_not_in_scope 9)
      published-IsValid unlisted_raises

abbrev single_world : World ℕ
single_world = final (single_refresh working 7 (world_of published))

single_returns : single_refresh working 7 (world_of published) ≡ returned tt single_world
unfolding single_refresh single_refresh_in get_current_snapshot_id read_guard is_in_scope select
    single_job single_body refresh_found find_project start_job run_job read_clock commit_now
    on_store on_gate on_env catch ◌>>=◌ execute transaction atomically require_in_progress
    find_snapshot next_rowid set_status coerce_trigger check_parent parent_exists insert_snapshot
    copy_parent copy_profiles copy_catalog insert_select insert_rows scan insert_and_copy
    begin_snapshot mark_completed move_pointer publish commit_snapshot is_empty upsert_profile
    write_profile upsert analyze_enumerated_projects analyze_at try_start end_job
single_returns = refl

single_refresh_publishes_example :
    (c : ℕ) × (published.current_snapshot ≡ some (some c))
    × (s : ℕ) × Publishes s (scan c published.project_catalog) published single_world.store.tables
single_refresh_publishes_example =
    single_refresh_publishes working 7 (world_of published) single_world published-IsValid
      single_returns

-- One project, and an analyzer that answers for the project that it is asked for.
abbrev till : EnumeratedProject
till = record shop { gitlab_project_id = 8; full_path = "group/till" }

abbrev honest : Wiring ℕ
honest = record working {
  enumerate_projects = λ e. returned (shop ∷ till ∷ []) e;
  analyze = λ p path branch sha description contents e.
      returned (record shop_profile { gitlab_project_id = p }) e;
}

honest-IsHonest : IsHonest honest
honest-IsHonest p path branch sha description contents x y profile h = ground arith

abbrev till_world : World ℕ
till_world = final (single_refresh honest 8 (world_of published))

till_returns : single_refresh honest 8 (world_of published) ≡ returned tt till_world
unfolding single_refresh single_refresh_in get_current_snapshot_id read_guard is_in_scope select
    single_job single_body refresh_found find_project start_job run_job read_clock commit_now
    on_store on_gate on_env catch ◌>>=◌ execute transaction atomically require_in_progress
    find_snapshot next_rowid set_status coerce_trigger check_parent parent_exists insert_snapshot
    copy_parent copy_profiles copy_catalog insert_select insert_rows scan insert_and_copy
    begin_snapshot mark_completed move_pointer publish commit_snapshot is_empty upsert_profile
    write_profile upsert analyze_enumerated_projects analyze_at try_start end_job
till_returns = refl

single_refresh_keeps_others_example :
    (c : ℕ) × (published.current_snapshot ≡ some (some c))
    × (s : ℕ) × ((till_world.store.tables.current_snapshot ≡ some (some s))
        × ((q : ℕ)
            → 8 ≢ q
            → get q (scan s till_world.store.tables.project_profiles)
              ≡ get q (scan c published.project_profiles)))
single_refresh_keeps_others_example =
    single_refresh_keeps_others honest honest-IsHonest 8 (world_of published) till_world
      published-IsValid till_returns
