-- ===== src/Drafts.antt =====
-- Drafts of revisions (exchange_agreement/services/contract_revisions.py): what they are made of, how
-- they are created and how their composition is replaced.
pub mod Inputs
pub mod Rows
pub mod Create
pub mod Replace
pub mod Composed
pub mod Created
pub mod Saved
pub mod Replaced
pub mod Needed
pub mod Supplied
pub mod Kept
