-- ===== src/Backend.antt =====
-- The backend service, apps/backend/src.
pub mod Schema
pub mod Subject
pub mod Rbac
pub mod Crypto
pub mod Auth
pub mod Sessions
pub mod Devices
pub mod DeviceGroups
pub mod Authenticate
pub mod Lockout
pub mod TwoFactor
pub mod Login
pub mod Commands
pub mod Wallboards
pub mod Notifications
pub mod Pipeline
pub mod Users
pub mod Roles
pub mod Groups
pub mod Scheduler
pub mod Scans
pub mod TickerMessages
pub mod Monitors
pub mod PublicStatus
pub mod Retention
pub mod Agents
pub mod Mib
pub mod MibStore
mod Tests
