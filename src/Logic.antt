-- ===== src/Logic.antt =====
-- src/logic and src/data/StatusTracker.cpp: the mode state machine, the status board and the task.
pub mod Status
pub mod ModeControl
pub mod Task
