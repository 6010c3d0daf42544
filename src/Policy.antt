-- ===== src/Policy.antt =====
-- The policy of a case for tools: policy/engine.py, plugins/catalog.py `tool_enabled`, and the one path
-- of tools/invoke.py by which every tool is called.
pub mod Engine
pub mod Rates
pub mod Gate
pub mod Invoke
pub mod Calls
pub mod Admitted
mod Tests
