-- ===== src/Agent.antt =====
-- Threads and runs: agent/service.py, agent/budget.py, agent/events.py and agent/delegation.py, on the
-- rows of agent/models.py. Money is in units of 0.0001 USD, the precision of the columns.
pub mod Budget
pub mod Events
pub mod Runs
pub mod Limits
pub mod Ending
pub mod Recovery
pub mod Delegation
mod Tests
