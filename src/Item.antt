-- ===== src/Item.antt =====
-- item-service.
pub mod Models
pub mod Transitions
pub mod Records
pub mod Service
pub mod Update
pub mod Rules
pub mod Effects
pub mod Numbering
pub mod Terminal
pub mod Invariant
pub mod Loading
pub mod Sound
pub mod Edits
pub mod Creation
pub mod Updating
pub mod Requests
pub mod Api
pub mod Statuses
pub mod Fields
pub mod Merging
pub mod Merges
pub mod Loop
pub mod Recovery
pub mod Board
pub mod Moves
pub mod Refinement
