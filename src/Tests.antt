-- ===== src/Tests.antt =====
-- Concrete runs of the model, and each result at an input that meets its hypotheses.
pub mod Sample
mod Runs
mod Witnesses
mod Clients
mod Maintenance
mod Files
mod Web
mod Tenants
