-- ===== src/Actuation.antt =====
-- robot_brain/actuation: the robot that the rest of the program drives.
pub mod Base
pub mod Transport
pub mod State
pub mod Unitree
