-- ===== src/LoginStats.antt =====
-- internal/storage/failed_login_statistics.go: failed logins counted by minute and reason, in memory and
-- in the table `failed_login_statistics`.
pub mod Counts
pub mod Table
pub mod Service
pub mod Conservation
pub mod Picked
pub mod Traces
