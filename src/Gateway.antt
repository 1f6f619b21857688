-- ===== src/Gateway.antt =====
-- gateway: the public routes, the check of tokens and the forwarding.
pub mod Models
pub mod Security
pub mod Proxy
pub mod Routes
pub mod Headers
pub mod Entitlement
pub mod Relaying
pub mod Templates
