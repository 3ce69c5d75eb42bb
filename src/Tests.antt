-- ===== src/Tests.antt =====
-- Concrete stores, collaborators and worlds for the examples.
mod Tokens
mod Requests
mod Stores
mod Refreshes
mod Gates
mod Loops
mod Others
mod Calls
use gitlab_knowledege.Common.{
  ℕ, suc, String, Bool, true, false, Option, none, some, List, [], ◌∷◌, ◌⊎◌, inl, inr, Text, codes,
  not, ◌==◌, leb, ◌&&◌,
}
use gitlab_knowledege.Exec.{Error, gitlab_auth, other, Outcome, returned, raised}
use gitlab_knowledege.Models.{
  completed, in_progress, full, ProjectProfile, EnumeratedProject, RepositoryContents,
}
use gitlab_knowledege.Store.Rows.{row}
use gitlab_knowledege.Store.Tables.{ProfileCells, Tables, bootstrap_schema, KnowledgeStore}
use gitlab_knowledege.Store.Writer.{Codec}
use gitlab_knowledege.Coordinator.{JobHandle, Coordinator, idle_coordinator}
use gitlab_knowledege.Jobs.{Wiring, World}

abbrev pub shop_profile : ProjectProfile
shop_profile = record {
  gitlab_project_id = 7;
  full_path = "group/shop";
  analysis_branch = "uat";
  analysis_branch_commit_sha = "c0ffee";
  produced_at = 3;
  purpose_summary = "Owns customer orders.";
  purpose_summary_reason = none;
  abstract_inputs = [];
  abstract_outputs = [];
  external_service_dependencies = [];
  database_table_dependencies = [];
  degraded_sections = [];
}

abbrev pub till_profile : ProjectProfile
till_profile = record shop_profile {
  gitlab_project_id = 5;
  full_path = "group/till";
  purpose_summary = "Manages customer orders.";
}

-- One text for one profile.
abbrev pub codec : Codec
codec = record { dump = λ _. "{shop}"; validate = λ _. inr shop_profile }

abbrev pub shop : EnumeratedProject
shop = record {
  gitlab_project_id = 7;
  full_path = "group/shop";
  analysis_branch_name = "uat";
  analysis_branch_commit_sha = some "c0ffee";
  branch_missing = false;
  repository_description = none;
}

abbrev pub attic : EnumeratedProject
attic = record {
  gitlab_project_id = 8;
  full_path = "group/attic";
  analysis_branch_name = "uat";
  analysis_branch_commit_sha = none;
  branch_missing = true;
  repository_description = none;
}

-- A clock that counts, and collaborators that answer.
abbrev pub working : Wiring ℕ
working = record {
  enumerate_projects = λ e. returned (shop ∷ attic ∷ []) e;
  fetch_repository_contents =
      λ p sha e. returned (record { gitlab_project_id = p; commit_sha = sha; files = [] }) e;
  analyze = λ p path branch sha description contents e. returned shop_profile e;
  codec = codec;
  now = λ e. (e, suc e);
}

abbrev pub unauthorized : Wiring ℕ
unauthorized = record working { enumerate_projects = λ e. raised (gitlab_auth 401) e }

abbrev pub crashing : Wiring ℕ
crashing = record working { enumerate_projects = λ e. raised (other "KeyError") e }

abbrev pub new_store : KnowledgeStore
new_store = record { tables = bootstrap_schema; is_open = true; faults = [] }

abbrev pub new_world : World ℕ
new_world = record { coordinator = idle_coordinator; store = new_store; env = 10 }

abbrev pub some_handle : JobHandle
some_handle = record { handle_id = 0; snapshot_id = 1; trigger = full; started_at = 4 }

abbrev pub busy_world : World ℕ
busy_world = record new_world {
  coordinator = record { running = some some_handle; created = 1; ended = [] };
}

-- One snapshot, in progress.
abbrev pub opened : Tables
opened = record bootstrap_schema {
  snapshots =
      record {
        snapshot_id = 1;
        started_at = 4;
        completed_at = none;
        status = in_progress;
        trigger = full;
        parent_snapshot_id = none;
      }
      ∷ [];
}

abbrev pub shop_cells : ProfileCells
shop_cells = record {
  full_path = "group/shop";
  analysis_branch = "uat";
  analysis_branch_sha = some "c0ffee";
  produced_at = 3;
  profile_json = "{shop}";
}

-- The same snapshot with a profile and its catalog, completed and current.
abbrev pub published : Tables
published = record bootstrap_schema {
  snapshots =
      record {
        snapshot_id = 1;
        started_at = 4;
        completed_at = some 5;
        status = completed;
        trigger = full;
        parent_snapshot_id = none;
      }
      ∷ [];
  project_profiles = row 1 7 shop_cells ∷ [];
  project_catalog = row 1 7 "group/shop" ∷ row 1 8 "group/attic" ∷ [];
  current_snapshot = some (some 1);
}

abbrev pub open_store : Tables → KnowledgeStore
open_store t = record { tables = t; is_open = true; faults = [] }

abbrev pub world_of : Tables → World ℕ
world_of t = record new_world { store = open_store t }
