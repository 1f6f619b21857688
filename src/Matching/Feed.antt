-- ===== src/Matching/Feed.antt =====
-- What matching-service relies on about the events of one item, as their sender keeps it.
use trabalho_devops.Prelude.{ℕ, ◌≤◌, ◌≡◌, ◌||◌, true, Option, some, str_eq}
use trabalho_devops.Messaging.{EventEnvelope}
use trabalho_devops.Matching.Models.{ItemEventPayload}

-- The events that may be delivered, and the latest state of the item `k` that they tell of.
pub record Feed {J : Type 0} (model_validate : J → Option ItemEventPayload) (k : ℕ)
    (latest : ItemEventPayload) : Type 1 where
  pub IsSent : EventEnvelope J → Type 0
  pub event_type :
      (e : EventEnvelope J)
      → IsSent e
      → (str_eq e.event_type "ItemCreated" || str_eq e.event_type "ItemUpdated") ≡ true
  pub received :
      (e : EventEnvelope J)
      → IsSent e
      → (p : ItemEventPayload) × (model_validate e.payload ≡ some p)
        × (p.id ≡ e.aggregate_id)
        × (p.version ≡ e.aggregate_version)
  pub not_ahead :
      (e : EventEnvelope J) → IsSent e → e.aggregate_id ≡ k → e.aggregate_version ≤ latest.version
  pub current :
      (e : EventEnvelope J)
      → IsSent e
      → e.aggregate_id ≡ k
      → e.aggregate_version ≡ latest.version
      → model_validate e.payload ≡ some latest
  pub unique :
      (e e' : EventEnvelope J)
      → IsSent e
      → IsSent e'
      → e.event_id ≡ e'.event_id
      → (e.aggregate_id ≡ e'.aggregate_id) × (e.aggregate_version ≡ e'.aggregate_version)
