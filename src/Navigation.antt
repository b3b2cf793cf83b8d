-- ===== src/Navigation.antt =====
-- robot_brain/navigation: the navigation providers and their clients.
pub mod Base
pub mod Grid
pub mod Frontier
pub mod Fake
pub mod Patrol
pub mod Topology
