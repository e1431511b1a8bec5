-- ===== src/Skills.antt =====
-- app/skills: the catalog of skills that jobs and résumés share.
pub mod Name
pub mod Resolve
pub mod Catalog
