-- ===== src/Engine.antt =====
-- The flow engine of pkg/engine: the graph it builds from a flow, the state of one execution, and
-- the two phases that run the nodes.
pub mod Graph
pub mod State
pub mod Skip
pub mod Record
pub mod Schedule
