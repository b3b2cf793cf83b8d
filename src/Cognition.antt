-- ===== src/Cognition.antt =====
-- robot_brain/cognition: fast reflexes before slow planning.
pub mod Go2Rules
pub mod FastReflex
pub mod Planner
