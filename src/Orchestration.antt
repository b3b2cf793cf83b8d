-- ===== src/Orchestration.antt =====
-- robot_brain/orchestration: the decision graph.
pub mod Context
pub mod Nodes
pub mod Graph
pub mod Hoare
pub mod Effects
