-- ===== src/Domain.antt =====
-- What names and variables of an app are allowed: applications/domain/validators.py, with
-- `slugify_dokku` of core/apps/utils.py. Texts are lists of code points.
pub mod Names
pub mod Texts
pub mod Slugs
pub mod Variables
mod Tests
