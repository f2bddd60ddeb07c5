-- ===== src/Examples.antt =====
-- A concrete graph library, a concrete deployment, and the theorems applied to them.
pub mod ListGraph
pub mod Conditions
pub mod Deletions
pub mod Deployment
pub mod ListEdits
pub mod ListPlan
pub mod Execution
pub mod Rollout
pub mod Failure
pub mod BuildOrder
pub mod Releases
pub mod Infos
pub mod Readiness
