-- ===== src/Tools.antt =====
-- hack: the tools that check the repository itself, and the one that makes its documents.
pub mod OpenApi
pub mod License
pub mod DocsGenerate
