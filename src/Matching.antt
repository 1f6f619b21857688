-- ===== src/Matching.antt =====
-- matching-service.
pub mod Models
pub mod Tokens
pub mod Scoring
pub mod Records
pub mod Service
pub mod Suggest
pub mod Alike
pub mod Verdicts
pub mod Decisions
pub mod Finality
pub mod Delivery
pub mod Projections
pub mod Fairness
pub mod Expiry
pub mod Expiring
pub mod Pairing
pub mod Generating
pub mod Refreshing
pub mod Processing
pub mod Feed
pub mod Tracking
pub mod Requests
pub mod Untouched
pub mod Deliveries
pub mod Api
pub mod Statuses
