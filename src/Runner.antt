-- ===== src/Runner.antt =====
-- The multiprocess test runner, python/wake_sol/_mp_server.py and _mp_worker.py.
pub mod Assign
pub mod Server
pub mod Worker
pub mod Partition
pub mod Drained
pub mod Ends
pub mod Workers
