-- ===== src/Article.antt =====
-- The articles of the analysis section: apps/frontend/src/app/features/articles/.
pub mod Doc
pub mod Editor
pub mod Workflow
