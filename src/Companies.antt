-- ===== src/Companies.antt =====
-- app/companies: a company's registration data and its review by an administrator.
pub mod Policies
pub mod Cnpj
pub mod CorporateEmail
pub mod Review
