-- ===== src/Tests.antt =====
-- The theorems about Realm/ObjectStore at concrete inputs, and runs of the code's definitions.
mod Tables
mod Groups
mod Migrations
mod SchemaUpdates
mod IndexSets
mod Logs
mod Schemas
mod Queries
mod Realms
mod LinkLists
mod Coordinators
mod AllResults
mod Caches
