-- ===== src/Task.antt =====
-- pkg/modules/task and the store behind it: the states of a task execution (Model), the table of
-- executions (Store), the processor of queued messages (Processor), and submissions (Submission).
pub mod Model
pub mod Uuid
pub mod Store
pub mod Registry
pub mod Processor
pub mod Submission
pub mod Workers
