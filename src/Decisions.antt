-- ===== src/Decisions.antt =====
-- Human review: decisions/service.py, on the rows of decisions/models.py, of analytics/models.py
-- (candidates and graph edges) and of monitor/models.py (alerts).
pub mod Rows
pub mod Service
pub mod Effects
pub mod Decide
pub mod Chain
pub mod Gates
pub mod Review
pub mod Findings
pub mod Elsewhere
pub mod Drafting
pub mod Backing
pub mod Soundness
pub mod Steps
pub mod Samples
mod Tests
