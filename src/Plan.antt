-- ===== src/Plan.antt =====
-- pkg/plan: operations, the plan (a graph of operations), how it is built and executed.
pub mod Operation
pub mod Info
pub mod Infos
pub mod ReleaseInfos
pub mod Graph
pub mod Chain
pub mod Build
pub mod Optimize
pub mod Execute
pub mod Deploy
