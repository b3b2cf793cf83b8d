-- ===== src/Memory.antt =====
-- robot_brain/memory: what the runtime keeps between commands.
pub mod TaskQueue
