-- ===== src/Recovery.antt =====
-- recovery-case-service.
pub mod Models
pub mod Records
pub mod Service
pub mod Consume
pub mod Decide
pub mod Calling
pub mod Delivery
pub mod Opening
pub mod Indexes
pub mod Exclusion
pub mod Invariant
pub mod Sound
pub mod Preparing
pub mod Exclusive
pub mod Ending
pub mod Requests
pub mod Api
pub mod Statuses
