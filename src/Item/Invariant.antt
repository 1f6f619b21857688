-- ===== src/Item/Invariant.antt =====
-- What holds of the database of item-service between two requests.
use trabalho_devops.Prelude.{ℕ, ◌≤◌, ◌≡◌, Option, none, some, List, [], arith}
use trabalho_devops.Store.{Env, Session}
use trabalho_devops.Table.{find, save, insert, dict_get, IsUnique}
use trabalho_devops.Table.Laws.{
  find-save, find-insert, save-IsUnique, insert-IsUnique, dict_get-insert,
}
use trabalho_devops.Messaging.{OutboxEvent, event_key}
use trabalho_devops.Item.Models.{
  ItemStatus, available, Item, item_key, ItemStatusHistory, ItemEventPayload, ItemDb,
}
use trabalho_devops.Item.Records.{to_item_event_payload}
use trabalho_devops.Item.Rules.{Mode, Allowed}
use trabalho_devops.Item.Effects.{Recorded, Announced}
use trabalho_devops.Item.Numbering.{IsNumbered}

abbrev pub entry_item : ItemStatusHistory → ℕ
entry_item e = e.item_id

abbrev pub event_item : OutboxEvent ItemEventPayload → ℕ
event_item e = e.aggregate_id

-- The status that the last entry for the item `k` leads to.
abbrev pub last_status : ℕ → List ItemStatusHistory → Option ItemStatus
last_status k h = elim (dict_get entry_item k h) [ none ↦ none | some e ↦ some e.to_status ]

-- The state of the item `k` that its last event carries.
abbrev pub last_payload : ℕ → List (OutboxEvent ItemEventPayload) → Option ItemEventPayload
last_payload k o = elim (dict_get event_item k o) [ none ↦ none | some e ↦ some e.payload ]

abbrev pub status_of : ℕ → List Item → Option ItemStatus
status_of k items = elim (find item_key k items) [ none ↦ none | some i ↦ some i.status ]

abbrev pub payload_of : ℕ → List Item → Option ItemEventPayload
payload_of k items = elim (find item_key k items) [
  | none ↦ none
  | some i ↦ some (to_item_event_payload i)
]

-- A step of one item's history: its creation, or a transition of the diagram.
pub data IsStep : Option ItemStatus → ItemStatus → Type 0 where
  creation : IsStep none available
  transition : {m : Mode} {s t : ItemStatus} → Allowed m s t → IsStep (some s) t

-- A history in which each entry starts where its item's last one ended, and is such a step.
pub data IsLawful : List ItemStatusHistory → Type 0 where
  empty : IsLawful []
  add :
      {h h' : List ItemStatusHistory} (e : ItemStatusHistory)
      → IsLawful h
      → e.from_status ≡ last_status e.item_id h
      → IsStep e.from_status e.to_status
      → h' ≡ insert e h
      → IsLawful h'

-- Each id is one item's; the history ends at the item's status; the last event of an item carries
-- the state that it has.
pub record IsConsistent (d : ItemDb) : Type 0 where
  pub unique : IsUnique item_key d.tables.items
  pub tracked : (k : ℕ) → last_status k d.tables.history ≡ status_of k d.tables.items
  pub announced : (k : ℕ) → last_payload k d.outbox ≡ payload_of k d.tables.items
  pub lawful : IsLawful d.tables.history

-- The identifiers still to be drawn name no item and no event.
abbrev pub IsFresh : Env → ItemDb → Type 0
IsFresh env d =
    (n : ℕ)
    → env.drawn ≤ n
    → (find item_key (env.uuids n) d.tables.items ≡ none)
      × (find event_key (env.uuids n) d.outbox ≡ none)

pub record IsSound (s : Session ItemDb) : Type 0 where
  pub distinct : (i j : ℕ) → s.env.uuids i ≡ s.env.uuids j → i ≡ j
  pub committed : IsConsistent s.committed
  pub committed_fresh : IsFresh s.env s.committed
  pub committed_numbered : IsNumbered s.committed
  pub working : IsConsistent s.working
  pub working_fresh : IsFresh s.env s.working
  pub working_numbered : IsNumbered s.working

module _ (item item' : Item) (d d' : ItemDb)
    (here : find item_key item'.id d.tables.items ≡ some item)
    (items : d'.tables.items ≡ save item_key item' d.tables.items) (c : IsConsistent d) where
  payload_of-save :
      {env env' : Env}
      → Announced env env' item' d d'
      → (k : ℕ) → last_payload k d'.outbox ≡ payload_of k d'.tables.items
  payload_of-save a k =
      rw (a.outbox, items)
        (ground (
          arith,
          dict_get-insert event_item a.event k d.outbox,
          find-save item_key item' k d.tables.items,
          c.announced k,
          a.event_item,
          a.event_payload,
          here,
        ))

  -- A change of a stored item's status that is recorded and announced keeps the database
  -- consistent.
  pub change-IsConsistent :
      {env env' : Env}
      → Recorded (some item.status) item' d d'
      → Announced env env' item' d d'
      → IsStep (some item.status) item'.status
      → IsConsistent d'
  change-IsConsistent r a step = record {
    unique = rw items (save-IsUnique item_key item' d.tables.items c.unique);
    tracked = λ k.
        rw (r.history, items)
          (ground (
            arith,
            dict_get-insert entry_item r.entry k d.tables.history,
            find-save item_key item' k d.tables.items,
            c.tracked k,
            r.entry_item,
            r.entry_to,
            here,
          ));
    announced = payload_of-save a;
    lawful =
        add r.entry c.lawful (ground (arith, r.entry_from, r.entry_item, c.tracked item'.id, here))
          (rw (r.entry_from, r.entry_to) step) r.history;
  }

  -- So does an announced change of other fields.
  pub update-IsConsistent :
      {env env' : Env}
      → d'.tables.history ≡ d.tables.history
      → item'.status ≡ item.status
      → Announced env env' item' d d'
      → IsConsistent d'
  update-IsConsistent same status a = record {
    unique = rw items (save-IsUnique item_key item' d.tables.items c.unique);
    tracked = λ k.
        rw (same, items)
          (ground (arith, find-save item_key item' k d.tables.items, c.tracked k, here));
    announced = payload_of-save a;
    lawful = rw same c.lawful;
  }

-- A recorded and announced insertion of a new item keeps the database consistent.
pub create-IsConsistent :
    {env env' : Env} (item : Item) (d d' : ItemDb)
    → find item_key item.id d.tables.items ≡ none
    → d'.tables.items ≡ insert item d.tables.items
    → IsConsistent d
    → Recorded none item d d'
    → Announced env env' item d d'
    → item.status ≡ available
    → IsConsistent d'
create-IsConsistent item d d' absent items c r a start = record {
  unique = rw items (insert-IsUnique item_key item d.tables.items absent c.unique);
  tracked = λ k.
      rw (r.history, items)
        (ground (
          arith,
          dict_get-insert entry_item r.entry k d.tables.history,
          find-insert item_key item k d.tables.items,
          c.tracked k,
          r.entry_item,
          r.entry_to,
          absent,
        ));
  announced = λ k.
      rw (a.outbox, items)
        (ground (
          arith,
          dict_get-insert event_item a.event k d.outbox,
          find-insert item_key item k d.tables.items,
          c.announced k,
          a.event_item,
          a.event_payload,
          absent,
        ));
  lawful =
      add r.entry c.lawful (ground (arith, r.entry_from, r.entry_item, c.tracked item.id, absent))
        (rw (r.entry_from, r.entry_to, start) creation) r.history;
}

module _ (env env' : Env) (item : Item) (d d' : ItemDb) (a : Announced env env' item d d')
    (fresh : IsFresh env d) where
  pub event_unused : find event_key a.event.id d.outbox ≡ none
  event_unused = rw a.event_id ((fresh a.index a.first).1)

  -- The event takes an identifier that is not drawn again.
  pub outbox_fresh :
      ((i j : ℕ) → env.uuids i ≡ env.uuids j → i ≡ j)
      → (n : ℕ) → env'.drawn ≤ n
      → find event_key (env.uuids n) d'.outbox ≡ none
  outbox_fresh distinct n h = rw a.outbox (
      ground (
        arith,
        find-insert event_key a.event (env.uuids n) d.outbox,
        (fresh n (omega (arith, a.first, a.last))).1,
        distinct a.index n,
        a.event_id,
        a.last,
      ))

  -- An announced change of a stored item leaves the identifiers to come fresh.
  pub IsFresh-save :
      ((i j : ℕ) → env.uuids i ≡ env.uuids j → i ≡ j)
      → env'.uuids ≡ env.uuids
      → d'.tables.items ≡ save item_key item d.tables.items
      → IsFresh env' d'
  IsFresh-save distinct same items n h = rw same (
    rw items (
        ground (
          arith,
          find-save item_key item (env.uuids n) d.tables.items,
          (fresh n (omega (arith, a.first, a.last))).0,
        )),
    outbox_fresh distinct n h,
  )

-- Drawing identifiers leaves the rest fresh.
pub IsFresh-later :
    (env env' : Env) (d : ItemDb)
    → env'.uuids ≡ env.uuids
    → env.drawn ≤ env'.drawn
    → IsFresh env d
    → IsFresh env' d
IsFresh-later env env' d same more f n h = rw same (f n (omega arith))
