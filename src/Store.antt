-- ===== src/Store.antt =====
-- The Knowledge_Store of src/project_knowledge_mcp/knowledge_store.py, part by part.
pub mod Rows
pub mod Tables
pub mod Invariant
pub mod Writer
pub mod Reader
pub mod Serves
