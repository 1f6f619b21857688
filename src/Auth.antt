-- ===== src/Auth.antt =====
-- auth-service: users, passwords and tokens.
pub mod Models
pub mod Libraries
pub mod Service
pub mod Api
pub mod Directory
pub mod Registration
pub mod Access
pub mod Sessions
pub mod Login
pub mod Requests
