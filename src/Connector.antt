-- ===== src/Connector.antt =====
-- src/project_knowledge_mcp/gitlab_connector.py
pub mod Paths
pub mod Urls
pub mod Client
pub mod Projects
pub mod Contents
pub mod Denied
pub mod Pages
pub mod Fetched
pub mod Selection
