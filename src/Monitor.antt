-- ===== src/Monitor.antt =====
-- The monitoring of watchlists: monitor/validation.py, monitor/runner.py, monitor/recovery.py,
-- monitor/principal.py, monitor/triage.py and monitor/scheduler.py.
pub mod Sources
pub mod Granted
pub mod Asked
pub mod Rows
pub mod Recovery
pub mod Principal
pub mod Triage
pub mod Publish
pub mod Attempt
pub mod Closed
pub mod Fresh
pub mod Scheduler
pub mod Backoff
pub mod Jobs
pub mod Signed
pub mod Reconciled
mod Tests
