-- ===== src/Lib.antt =====
-- MiniSpark: a small query engine in the manner of Spark (minispark/ of the repository). A query is a
-- logical plan over datasets of partitions; the analyzer checks it, the optimizer rewrites it, and it
-- is executed, either by the naive executor, partition by partition, or through a physical plan that
-- is cut into stages at its exchanges, with a shuffle through files between two stages.
--
-- Common             lists, texts, integers and exceptions that the parts share
-- Core               minispark/core: values, types, schemas, partitions, datasets
-- Expressions        minispark/expressions: the classes with evaluate, repr and the aggregates
-- Logical            minispark/logical: nodes, explain_string, analyze
-- Optimizer          minispark/optimizer: map_expressions, the five rules of rules.py, the loop
--                    (optimizer.py), statistics.py (Statistics)
-- Physical           minispark/physical: plan.py (Plan), planner.py (Planner with ScanReads and
--                    SortRange), operators.py (Operators with Sorting, Joining, Grouping,
--                    Aggregating and Partitions), spill.py (Spill)
-- Shuffle            minispark/shuffle: partitioners, writer, reader, manager
-- Execution          minispark/execution: executor.py (Executor), stages.py (Stages), dag.py (Dag),
--                    tasks.py (Tasks), worker.py (Worker), metrics.py (Metrics), scheduler.py
--                    (Scheduler)
-- Tests              sample rows and plans, and each theorem at one of them
--
-- A Python class is a constructor and a method a function by clauses. An exception is a value of
-- `Exception` without its message, and a call that may raise has a `Result`. A row is an association
-- list from names to values; an iterator is the run that it gives (`Rows`), which may end in an
-- exception; the rows of a partition are read anew each time, though the source gives those of a sort
-- without spilled runs once only. `evaluate`, `fold`, `pushdown`, `analyze`,
-- `execute` and `build_stages` have the names of the source; `simplify_bool`, `prune`, `eliminate` and
-- `split` are its `_simplify_bool`, `_prune`, `_eliminate` and `_split`. The list of stages that
-- `_split` appends to is passed along, and the identity of a fragment is a Boolean of its result.
-- The planner's walk over the scans gives `none` for the object that went in. The scheduler's steps
-- take and leave a `SchedulerState`, also where they raise; `run_task` is an argument of it, with the
-- state `World` of what tasks change, and `execute_task` of the worker is one such function, over the
-- disk of the shuffle. The tasks of a batch run one after another, in the order of their results.
--
-- Parameters. `Host` (Core.Value) is the Python interpreter: operations on floats, and `repr` of a
-- value; no law of them is used. `KeyHost` and `PickleHost` (Shuffle) are MD5, the order of keys and
-- the pickle format; `PickleLaws` (Shuffle.Contents) is what that format promises of the rows.
-- `SizeHost` is `sys.getsizeof`, and `SpillHost` pickle for spill files. `list.sort` and `heapq.merge`
-- are modelled by what they give, a stable sort and a merge, and `bisect_right` by its loop. What
-- `cleanup` of the shuffle does to the world is an argument of `run_plan`.
--
-- Fuel. `bisect_loop` starts with the length of its list, which its interval halves at each round;
-- `load_all` starts with one more than the bytes of its file, and each load takes a byte at least. The
-- optimizer's rounds are ten by the source itself. `run_plan` has `max_retries + 1` rounds and one for
-- each stage, since a pending task either uses an attempt or a recovery of a stage, of which each stage
-- has one; recoveries nest no deeper than there are stages. All else is structural recursion.
--
-- Not modelled: storage/ (files through the csv, pyarrow and pickle libraries), the process pool, the
-- clock and psutil (times and process memory in the metrics), the creation of
-- directories, logging, the texts of exceptions and of `QueryMetrics.summary`, the builders of api/,
-- and sql/.
pub mod Common
pub mod Core
pub mod Expressions
pub mod Logical
pub mod Physical
pub mod Shuffle
pub mod Execution
pub mod Optimizer
pub mod Tests
