-- ===== src/Registration.antt =====
-- Registering accounts: app/candidates/services/register_professional.py and
-- app/companies/services/register_company.py, with the identity provider of app/identity.
pub mod Rows
pub mod Attempt
pub mod Professional
pub mod Company
pub mod Unique
