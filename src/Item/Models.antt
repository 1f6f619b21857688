-- ===== src/Item/Models.antt =====
-- The data of item-service: app/models/item.py, app/models/item_status_history.py,
-- app/schemas/item.py, app/schemas/item_event.py, app/core/exceptions.py. A text of the user's is
-- the list of its code points; identifiers, dates and times are numbers.
use trabalho_devops.Prelude.{ℕ, String, Bool, true, false, Option, List, Text}
use trabalho_devops.Messaging.{Db}

pub data Classification : Type 0 where
  lost found : Classification

pub data ItemStatus : Type 0 where
  available matched in_recovery recovered cancelled closed : ItemStatus

-- `==` of two statuses
abbrev pub status_eq : ItemStatus → ItemStatus → Bool
status_eq ItemStatus.available ItemStatus.available = true
status_eq ItemStatus.matched ItemStatus.matched = true
status_eq ItemStatus.in_recovery ItemStatus.in_recovery = true
status_eq ItemStatus.recovered ItemStatus.recovered = true
status_eq ItemStatus.cancelled ItemStatus.cancelled = true
status_eq ItemStatus.closed ItemStatus.closed = true
status_eq _ _ = false

pub record Item : Type 0 where
  pub id : ℕ
  pub classification : Classification
  pub title : Text
  pub description : Text
  pub category : Text
  pub color : Text
  pub location_description : Text
  pub approximate_date : ℕ
  pub reporter_user_id : ℕ
  pub status : ItemStatus
  pub version : ℕ
  pub created_at : ℕ
  pub updated_at : ℕ

abbrev pub item_key : Item → ℕ
item_key item = item.id

pub record ItemStatusHistory : Type 0 where
  pub id : ℕ
  pub item_id : ℕ
  pub from_status : Option ItemStatus
  pub to_status : ItemStatus
  pub reason : String
  pub actor_user_id : Option ℕ
  pub occurred_at : ℕ

pub record ItemEventPayload : Type 0 where
  pub id : ℕ
  pub classification : Classification
  pub title : Text
  pub description : Text
  pub category : Text
  pub color : Text
  pub location_description : Text
  pub approximate_date : ℕ
  pub reporter_user_id : ℕ
  pub status : ItemStatus
  pub version : ℕ
  pub created_at : ℕ
  pub updated_at : ℕ

pub record ItemCreateRequest : Type 0 where
  pub classification : Classification
  pub title : Text
  pub description : Text
  pub category : Text
  pub color : Text
  pub location_description : Text
  pub approximate_date : ℕ
  pub reporter_user_id : ℕ

pub record ItemUpdateRequest : Type 0 where
  pub title : Option Text
  pub description : Option Text
  pub category : Option Text
  pub color : Option Text
  pub location_description : Option Text
  pub approximate_date : Option ℕ
  pub reporter_user_id : Option ℕ

pub record ItemStatusUpdateRequest : Type 0 where
  pub status : ItemStatus
  pub reason : String
  pub actor_user_id : Option ℕ

pub record RecoveryOpenRequest : Type 0 where
  pub item_ids : List ℕ
  pub actor_user_id : Option ℕ
  pub reason : Option String

pub record RecoveryCancelRequest : Type 0 where
  pub item_ids : List ℕ
  pub actor_user_id : Option ℕ
  pub reason : Option String
  pub target_status : ItemStatus

pub record RecoveryCompleteRequest : Type 0 where
  pub item_ids : List ℕ
  pub actor_user_id : Option ℕ
  pub reason : Option String

-- The exceptions of the service, without their message texts.
pub data Error : Type 0 where
  invalid_transition invalid_update : Error
  not_found : List ℕ → Error

-- The tables `items` and `item_status_history`.
pub record Tables : Type 0 where
  pub items : List Item
  pub history : List ItemStatusHistory

abbrev pub ItemDb : Type 0
ItemDb = Db ItemEventPayload Tables
