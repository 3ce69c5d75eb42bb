-- ===== src/Go.antt =====
-- The Go analyzer of src/project_knowledge_mcp/project_analyzer/go/.
pub mod Tokens
pub mod Cursor
pub mod Literals
pub mod Tokenizer
