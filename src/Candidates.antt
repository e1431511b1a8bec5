-- ===== src/Candidates.antt =====
-- app/candidates: a candidate's registration data and résumé.
pub mod Age
pub mod Completeness
pub mod Cpf
pub mod Certificate
