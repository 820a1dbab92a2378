-- ===== src/Index.antt =====
-- The in-memory mirrors of one agent domain, internal/repo/index.
pub mod Content
pub mod Topics
