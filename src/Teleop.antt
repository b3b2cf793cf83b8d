-- ===== src/Teleop.antt =====
-- robot_brain/teleop: manual control over the network.
pub mod State
pub mod Lease
pub mod Drive
pub mod Steps
pub mod Frame
pub mod Holder
pub mod Limits
pub mod Deadman
pub mod Estop
