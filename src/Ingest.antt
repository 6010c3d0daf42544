-- ===== src/Ingest.antt =====
-- evidence/service.py: how bytes become evidence. Rows holds the tables, Sniffing the reasons for a
-- quarantine, Process the derivation from bytes and Receive the ingestion of bytes.
pub mod Rows
pub mod Sniffing
pub mod Process
pub mod Receive
pub mod Depth
pub mod Sound
pub mod Numbering
pub mod Growth
pub mod Processed
pub mod Integrity
mod Tests
