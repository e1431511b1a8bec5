-- ===== src/Tests.antt =====
-- Runs of the model on concrete data, and each theorem applied to some.
mod Samples
mod Applications
mod Automatic
mod Notifications
mod Registrations
mod Accounts
mod Registering
mod Publishing
mod Catalog
mod Listing
mod Details
