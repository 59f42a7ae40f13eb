-- ===== src/Process.antt =====
-- controllers/process.go: the metrics of a SmartLimiter, and the refresh of what its descriptors mean
-- in the cluster.
pub mod EnvoyFilters
pub mod ConfigMap
pub mod Metrics
pub mod Refresh
