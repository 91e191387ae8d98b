-- ===== src/Dependencies.antt =====
-- exchange_agreement/services/indicator_dependencies.py: the graph of indicator versions.
pub mod Graph
pub mod Catalogue
pub mod Closure
pub mod Cycle
