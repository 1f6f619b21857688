-- ===== src/Tests.antt =====
-- Runs of the models on concrete data, and each property applied to one.
mod Entrance
mod Items
mod Accounts
mod Cases
mod Deliveries
mod Outgoing
mod Matches
mod Sagas
mod Propagations
