-- ===== src/Apps.antt =====
-- The use cases on apps, applications/use_cases/, and what dispatches them.
pub mod Commands
pub mod Databases
pub mod Manage
pub mod Delete
pub mod Views
pub mod Scale
pub mod Create
pub mod Deploy
pub mod Cancel
pub mod Remote
pub mod Webhook
pub mod Tasks
