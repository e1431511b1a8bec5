-- ===== src/Applications.antt =====
-- app/applications: the candidate's applications, from submission to their end.
pub mod Policies
pub mod Status
pub mod Submit
pub mod UpdateStatus
pub mod Withdraw
pub mod Automatic
pub mod Invariant
pub mod History
