-- ===== src/Lib.antt =====
-- The project knowledge server of src/project_knowledge_mcp: a process that enumerates the
-- projects of a GitLab group, analyses each one, keeps the profiles in an SQLite file, and serves
-- them. This library models the parts that decide what readers see.
--
-- The parts and their files.
--
-- Exec.antt: methods that read and write an object and may raise, with the exception classes of
-- src/project_knowledge_mcp/errors.py; `try ... except` is `catch`, `try ... finally` is
-- `finally`. What was written before a raise stays written. Exec/Relates.antt and
-- Exec/Inversion.antt hold the rules for such methods.
--
-- Models.antt: the records of src/project_knowledge_mcp/models.py, as they are once validated.
--
-- Store.antt and the files under Store/: src/project_knowledge_mcp/knowledge_store.py. Store/Rows
-- holds the statements on the tables that are keyed by snapshot and project, Store/Tables the
-- tables of the schema, how a statement runs, the transactions and `_require_in_progress`,
-- Store/Writer the methods begin_snapshot, write_profile, record_skip, abort_snapshot and
-- commit_snapshot, and Store/Reader get_current_snapshot_id, get_profile, list_profiles and
-- get_snapshot_metadata. Store/Invariant says what well-formed tables are and what readers see of
-- tables.
--
-- Catalog.antt: src/project_knowledge_mcp/project_catalog.py, on the same tables.
--
-- Coordinator.antt: the gate of src/project_knowledge_mcp/ingestion_coordinator.py, that is
-- try_start, current_state, is_idle and the methods of a handle. Handles are told apart by a
-- number, which stands for the identity of the object.
--
-- Jobs.antt: start_full_refresh and start_single_project_refresh of the same file, over a world
-- that holds the gate, the store and the state of what the collaborators reach. The GitLab
-- connector, the analyzer, the clock and the JSON codec are the record Wiring; they may answer
-- and raise anything.
--
-- Scheduler.antt: src/project_knowledge_mcp/scheduler.py, the life of the thread and its loop
-- over the answers of its sleeps; Scheduler/Life takes the calls of start and stop and the ends
-- of the sleeps as steps, one after the other.
--
-- Conflicts.antt and the files under Conflicts/: src/project_knowledge_mcp/conflict_detector.py.
--
-- Config.antt: src/project_knowledge_mcp/config.py, from the environment to the Config.
--
-- Connector.antt and the files under Connector/: src/project_knowledge_mcp/gitlab_connector.py.
-- Connector/Paths holds the rules for the files that are worth fetching, with those of
-- src/project_knowledge_mcp/project_analyzer/go/go_filter.py, Connector/Urls `_build_url` and the
-- Link header, Connector/Selection the order and the cap of the files, Connector/Client the
-- requests, `_paginate` and the status codes, Connector/Projects enumerate_projects, and
-- Connector/Contents fetch_repository_contents. The HTTP client and the decoded JSON are the
-- record Library.
--
-- Go.antt and the files under Go/: src/project_knowledge_mcp/project_analyzer/go/go_tokenizer.py,
-- with the tokens of _events.py beside it. Go/Tokens holds the kinds and the tables, Go/Cursor
-- the position in the text, Go/Literals the scans of comments, strings and numbers, and
-- Go/Tokenizer the dispatch and the generator. str.isdigit and str.isalpha are the record
-- Unicode.
--
-- Server.antt and the files under Server/: src/project_knowledge_mcp/mcp_server.py. Server.antt
-- holds the tools, the results and the registry, Server/Handlers the eight tool handlers over the
-- world of Jobs.antt and the registration of them, and Server/Dispatch `_dispatch_tool_call`.
-- jsonschema, json and pydantic are the record Sdk; a project id in a call is a natural number.
--
-- Tests.antt and the files under Tests/: examples at concrete inputs.
--
-- How the parts interact. A refresh opens a snapshot in the store, takes the slot of the gate,
-- writes the catalog and the profiles under the new snapshot, and commits, which moves the
-- pointer that all readers go by. The scheduler calls the full refresh. Every file's comment says
-- which code it is about.
--
-- Bounds and choices. Ids and instants are natural numbers; rowids do not run out at 2 ^ 63. A
-- list of faults beside the tables says, statement by statement, whether SQLite raises; a
-- statement that raises writes nothing, and COMMIT and ROLLBACK succeed. One connection runs one
-- method at a time. Loops are recursion on the list that they walk, and the loop of the scheduler
-- is recursion on the answers of its sleeps, so no fuel is needed there. The tokenizer and the
-- loop of a string literal have the length of the text for fuel, which each token and each round
-- of the loop uses up one unit of while it reads a character at least. Pagination has a number of
-- requests for fuel, since a server may go on for ever; one more than the pages behind the first
-- is enough. A generator is run to its end, and the requests of the connector's worker threads
-- are taken one after the other, in the order of their results. Texts of conflict_detector.py,
-- config.py, gitlab_connector.py and go_tokenizer.py are lists of code points. Unicode data, the
-- order of a set and urlsplit are parameters. Logging is left out, but for what a tick of the
-- scheduler reports.
--
-- Not modelled: opening and closing the file, pragmas and the text of timestamps, for they are
-- SQLite's and datetime's; the validators of the models but those of EnumeratedProject and
-- RepositoryContents; the constructor and the closing of the connector; the transport of
-- mcp_server.py, its properties name and version; visualization_server.py; the analyzers under
-- project_analyzer behind the Go tokenizer and the file filter; diagram_renderer.py; and the
-- set-up of the process in main.py.
mod Common
pub mod Models
pub mod Exec
pub mod Store
pub mod Catalog
pub mod Coordinator
pub mod Jobs
pub mod Scheduler
pub mod Conflicts
pub mod Config
pub mod Go
pub mod Connector
pub mod Server
mod Tests
