-- ===== src/Models.antt =====
-- The rows of the database: applications/models.py, service_mgmt/models.py and the exceptions of
-- applications/domain/exceptions.py. Columns that no modelled operation reads or writes
-- (`created_by`, `created_at`, `updated_at`, `port`, `help_url`) are left out.
pub mod App
pub mod Service
pub mod Errors
