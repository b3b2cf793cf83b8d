-- ===== src/Safety.antt =====
-- robot_brain/safety: the deterministic veto layer between planning and actuation.
pub mod Policy
pub mod Skills
pub mod Motion
pub mod Validator
pub mod Estop
pub mod Gate
