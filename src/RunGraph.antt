-- ===== src/RunGraph.antt =====
-- crates/run-graph: dependency edges between runs, their readiness, and subtree cancellation.
pub mod Repository
pub mod Readiness
pub mod Descendants
pub mod WalkEnds
pub mod Cancellation
pub mod Eligible
pub mod Fence
pub mod AddDependency
pub mod Reach
pub mod Acyclic
pub mod Inserted
pub mod Edges
