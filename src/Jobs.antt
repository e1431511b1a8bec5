-- ===== src/Jobs.antt =====
-- app/jobs: a company's jobs, when they are open, and how candidates fit them.
pub mod Open
pub mod Records
pub mod Publish
pub mod Detail
pub mod Applicants
pub mod ChangeStatus
pub mod Compatibility
