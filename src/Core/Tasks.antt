-- ===== src/Core/Tasks.antt =====
-- robot_brain/core/tasks.py. Times are microseconds since the epoch; `attempts` and `max_attempts`
-- are the non-negative integers that the fields' constraints leave.
use robot_brain.Prelude.{ℕ, ◌≡◌, ◌↔◌, Bool, true, String, ℤ, arith, nat_beq, Eq}

pub data TaskStatus : Type 0 where
  queued running awaiting_confirmation paused completed failed cancelled : TaskStatus

-- The text that the `StrEnum` member is.
abbrev pub value : TaskStatus → String
value queued = "queued"
value running = "running"
value awaiting_confirmation = "awaiting_confirmation"
value paused = "paused"
value completed = "completed"
value failed = "failed"
value cancelled = "cancelled"

abbrev pub position : TaskStatus → ℕ
position queued = 0
position running = 1
position awaiting_confirmation = 2
position paused = 3
position completed = 4
position failed = 5
position cancelled = 6

abbrev pub status_beq : TaskStatus → TaskStatus → Bool
status_beq a b = nat_beq (position a) (position b)

pub status_beq_iff : (a b : TaskStatus) → (status_beq a b ≡ true) ↔ (a ≡ b)
status_beq_iff a b = ground arith

instance abbrev pub status_eq : Eq TaskStatus
status_eq = record { beq = status_beq; beq_iff = status_beq_iff }

pub record ScheduledTask : Type 0 where
  pub task_id : String
  pub thread_id : String
  pub objective : String
  pub priority : ℤ
  pub status : TaskStatus
  pub attempts : ℕ
  pub max_attempts : ℕ
  pub source : String
  pub last_message : String
  pub created_at : ℕ
  pub updated_at : ℕ
