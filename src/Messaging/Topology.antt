-- ===== src/Messaging/Topology.antt =====
-- app/messaging/topology.py, of which every service carries the same copy.
use trabalho_devops.Prelude.{String, List, [], ◌∷◌}

abbrev pub events_exchange : String
events_exchange = "domain.events"

abbrev pub dead_letter_exchange : String
dead_letter_exchange = "domain.events.dlx"

-- The entries of ROUTING_KEYS.
abbrev pub item_created : String
item_created = "item.created"

abbrev pub item_updated : String
item_updated = "item.updated"

abbrev pub match_suggested : String
match_suggested = "match.suggested"

abbrev pub match_accepted : String
match_accepted = "match.accepted"

abbrev pub match_rejected : String
match_rejected = "match.rejected"

abbrev pub recovery_case_opened : String
recovery_case_opened = "recovery_case.opened"

abbrev pub recovery_case_cancelled : String
recovery_case_cancelled = "recovery_case.cancelled"

abbrev pub recovery_case_completed : String
recovery_case_completed = "recovery_case.completed"

abbrev pub routing_keys : List String
routing_keys =
    item_created ∷ item_updated ∷ match_suggested ∷ match_accepted ∷ match_rejected
    ∷ recovery_case_opened ∷ recovery_case_cancelled ∷ recovery_case_completed ∷ []

-- A queue and the routing keys that are bound to it.
abbrev pub Bindings : Type 0
Bindings = List (String × List String)

abbrev pub queue_bindings : Bindings
queue_bindings =
    ("matching-service.item-events", item_created ∷ item_updated ∷ [])
    ∷ ("recovery-case-service.match-events", match_accepted ∷ [])
    ∷ []

abbrev pub dead_letter_queue_bindings : Bindings
dead_letter_queue_bindings =
    ("matching-service.item-events.dlq", item_created ∷ item_updated ∷ [])
    ∷ ("recovery-case-service.match-events.dlq", match_accepted ∷ [])
    ∷ []

abbrev pub audit_queue_bindings : Bindings
audit_queue_bindings = ("domain.events.audit", routing_keys) ∷ []
