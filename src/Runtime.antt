-- ===== src/Runtime.antt =====
-- robot_brain/runtime: the runtime's entry points over the graph, and the scheduler over the runtime.
pub mod State
pub mod Records
pub mod Loop
pub mod Scheduler
