-- ===== src/Saga.antt =====
-- recovery-case-service and item-service together, with the network between them.
pub mod Client
pub mod Answers
pub mod Opening
pub mod Retrying
pub mod Agreement
pub mod Closing
