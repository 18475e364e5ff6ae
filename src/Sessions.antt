-- ===== src/Sessions.antt =====
-- The interactive sessions of the CLI: interactive_sessions/ and
-- core/apps/mixins/apps/interactive_run.py.
pub mod Model
pub mod Strip
pub mod Rows
pub mod Operations
pub mod Terminal
pub mod Loop
pub mod Evolution
pub mod Requests
pub mod Invariant
pub mod Cancel
mod Answers
mod Secrets
pub mod Queue
pub mod Audit
pub mod Runners
pub mod Claims
mod Tests
