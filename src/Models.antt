-- ===== src/Models.antt =====
-- The tables of apps/api/app/models as records, their enumerations as data types, the rows that a
-- session stages, and the database that it commits to.
pub mod Json
pub mod Tenancy
pub mod Jobs
pub mod Apps
pub mod Records
pub mod Db
