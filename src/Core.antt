-- ===== src/Core.antt =====
-- robot_brain/core and the data that the components share.
pub mod Builtins
pub mod Results
pub mod Tasks
pub mod Errors
pub mod World
pub mod Calls
pub mod Settings
pub mod Actions
