-- ===== src/Execution/Scheduler/Files.antt =====
-- What a query leaves on the disk, with the worker's tasks and the manager's cleanup.
use minispark.Core.Value.{Value}
