-- ===== src/Tests.antt =====
-- The theorems at concrete inputs.
mod Samples
mod SafetyRuns
mod RuntimeRuns
mod ApprovalRuns
mod TaskRuns
mod ReflexRuns
mod ActuationRuns
mod TeleopRuns
mod NavigationRuns
