-- ===== src/Models.antt =====
-- The data models of src/project_knowledge_mcp/models.py. Strings are native strings, a datetime is
-- the instant that it denotes, a GitLab id is a natural number.
use gitlab_knowledege.Common.{ℕ, String, Bool, Option, List}

pub data SnapshotStatus : Type 0 where
  in_progress completed failed : SnapshotStatus

pub data SnapshotTrigger : Type 0 where
  full single_project scheduled startup_load : SnapshotTrigger

pub data AbstractInputCategory : Type 0 where
  http_request scheduled_event message_consumed file_read cli_argument other : AbstractInputCategory

pub data AbstractOutputCategory : Type 0 where
  http_response message_published file_written database_write external_call other :
      AbstractOutputCategory

pub data ExternalServiceKind : Type 0 where
  http_api message_broker object_store cache auth_provider other : ExternalServiceKind

pub data DatabaseAccessMode : Type 0 where
  read write read_write unknown : DatabaseAccessMode

pub record SourceLocation : Type 0 where
  pub path : String
  pub line : Option ℕ

pub record AbstractInput : Type 0 where
  pub category : AbstractInputCategory
  pub description : String

pub record AbstractOutput : Type 0 where
  pub category : AbstractOutputCategory
  pub description : String

pub record ExternalServiceDependency : Type 0 where
  pub name : String
  pub kind : ExternalServiceKind
  pub source_locations : List SourceLocation

pub record DatabaseTableDependency : Type 0 where
  pub table_name : String
  pub access_mode : DatabaseAccessMode
  pub source_locations : List SourceLocation

pub record ProjectProfile : Type 0 where
  pub gitlab_project_id : ℕ
  pub full_path : String
  pub analysis_branch : String
  pub analysis_branch_commit_sha : String
  pub produced_at : ℕ
  pub purpose_summary : String
  pub purpose_summary_reason : Option String
  pub abstract_inputs : List AbstractInput
  pub abstract_outputs : List AbstractOutput
  pub external_service_dependencies : List ExternalServiceDependency
  pub database_table_dependencies : List DatabaseTableDependency
  pub degraded_sections : List String

pub record SnapshotMetadata : Type 0 where
  pub snapshot_id : ℕ
  pub started_at : ℕ
  pub completed_at : Option ℕ
  pub trigger : SnapshotTrigger
  pub commit_sha_by_project : List (ℕ × Option String)

pub record EnumeratedProject : Type 0 where
  pub gitlab_project_id : ℕ
  pub full_path : String
  pub analysis_branch_name : String
  pub analysis_branch_commit_sha : Option String
  pub branch_missing : Bool
  pub repository_description : Option String

pub record RepositoryContents : Type 0 where
  pub gitlab_project_id : ℕ
  pub commit_sha : String
  pub files : List (String × String)
