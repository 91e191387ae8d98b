-- ===== src/Tests.antt =====
-- Runs on sample data, and the theorems applied to it.
mod Samples
mod Lifecycle
mod Revisions
mod Values
mod Policies
mod Contracts
mod Ingest
mod Grants
mod Groups
mod Invitations
mod Memberships
mod Provisioning
mod Acceptance
mod Closure
mod Drafts
