-- ===== src/Services.antt =====
-- The use cases on services, service_mgmt/use_cases/, with their helpers of
-- core/apps/mixins/services/.
pub mod Rows
pub mod Urls
pub mod Promote
pub mod Unlink
pub mod Delete
pub mod EnvKeys
pub mod Remote
pub mod Link
pub mod Create
mod Tests
