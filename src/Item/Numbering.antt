-- ===== src/Item/Numbering.antt =====
-- The events in the outbox of item-service by the versions of its items: what a consumer can rely
-- on that may see them late, twice or out of order.
use trabalho_devops.Prelude.{
  ℕ, ◌+◌, ◌≤◌, ◌==◌, ◌≡◌, ◌⊎◌, ◌||◌, true, none, some, Option-cases, Bool-cases, inl, inr, str_eq,
  arith, ap, ◌∙◌, if◌then◌else◌,
}
use mathlib.Core.Path.{subst}
use trabalho_devops.Store.{Env}
use trabalho_devops.Table.{find, save, insert}
use trabalho_devops.Table.Laws.{find-save, find-insert}
use trabalho_devops.Messaging.{OutboxEvent, event_key}
use trabalho_devops.Item.Models.{Item, item_key, ItemEventPayload, ItemDb}
use trabalho_devops.Item.Records.{to_item_event_payload}
use trabalho_devops.Item.Effects.{Announced}

-- An event about the item: of its version or an older one, and with its state if of its version.
pub record Tells (item : Item) (e : OutboxEvent ItemEventPayload) : Type 0 where
  pub item_id : e.aggregate_id ≡ item.id
  pub not_ahead : e.aggregate_version ≤ item.version
  pub current : e.aggregate_version ≡ item.version → e.payload ≡ to_item_event_payload item
  pub payload_id : e.payload.id ≡ e.aggregate_id
  pub payload_version : e.payload.version ≡ e.aggregate_version
  pub event_type : (str_eq e.event_type "ItemCreated" || str_eq e.event_type "ItemUpdated") ≡ true

-- Every event is about a stored item, and every item's version has its event.
pub record IsNumbered (d : ItemDb) : Type 0 where
  pub told :
      (k : ℕ) (e : OutboxEvent ItemEventPayload)
      → find event_key k d.outbox ≡ some e
      → (item : Item) × (find item_key e.aggregate_id d.tables.items ≡ some item) × Tells item e
  pub newest :
      (k : ℕ) (item : Item)
      → find item_key k d.tables.items ≡ some item
      → (e : OutboxEvent ItemEventPayload) × (find event_key e.id d.outbox ≡ some e)
        × (e.aggregate_id ≡ k)
        × (e.aggregate_version ≡ item.version)

module _ (env env' : Env) (item' : Item) (d d' : ItemDb) (a : Announced env env' item' d d')
    (unused : find event_key a.event.id d.outbox ≡ none) (c : IsNumbered d) where
  announced-Tells : Tells item' a.event
  unfolding to_item_event_payload
  announced-Tells = record {
    item_id = a.event_item;
    not_ahead = omega (arith, a.event_version);
    current = λ e. a.event_payload;
    payload_id = rw a.event_payload (ground (arith, a.event_item));
    payload_version = rw a.event_payload (ground (arith, a.event_version));
    event_type = a.event_type;
  }

  event_here : find event_key a.event.id d'.outbox ≡ some a.event
  event_here =
      rw a.outbox (ground (arith, find-insert event_key a.event a.event.id d.outbox, unused))

  event_kept :
      (e : OutboxEvent ItemEventPayload)
      → find event_key e.id d.outbox ≡ some e
      → find event_key e.id d'.outbox ≡ some e
  event_kept e h = rw a.outbox (ground (arith, find-insert event_key a.event e.id d.outbox, h))

  -- A row of the new outbox is the event, or was there.
  event_cases :
      (k : ℕ) (e : OutboxEvent ItemEventPayload)
      → find event_key k d'.outbox ≡ some e
      → (find event_key k d.outbox ≡ some e) ⊎ (a.event ≡ e)
  event_cases k e h = elim (Option-cases (find event_key k d.outbox)) [
    | inl absent ↦
        inr (ground (arith, find-insert event_key a.event k d.outbox, a.outbox, h, absent))
    | inr (x, there) ↦
        inl (ground (arith, find-insert event_key a.event k d.outbox, a.outbox, h, there))
  ]

  announced_newest :
      (k : ℕ) (item : Item)
      → item' ≡ item
      → (item'.id == k) ≡ true
      → (e : OutboxEvent ItemEventPayload) × (find event_key e.id d'.outbox ≡ some e)
        × (e.aggregate_id ≡ k)
        × (e.aggregate_version ≡ item.version)
  announced_newest k item same mine = (
    a.event,
    event_here,
    ground (arith, a.event_item),
    a.event_version ∙ ap (λ (i : Item). i.version) same,
  )

  -- A stored item with its next version, announced.
  pub saved-IsNumbered :
      (item : Item)
      → find item_key item'.id d.tables.items ≡ some item
      → d'.tables.items ≡ save item_key item' d.tables.items
      → item'.version ≡ item.version + 1
      → IsNumbered d'
  saved-IsNumbered item here items next = record {
    told = λ k e h. elim (event_cases k e h) [
      | inl was ↦ old (c.told k e was)
      | inr new ↦ subst Told new (item', own a.event.aggregate_id a.event_item, announced-Tells)
    ];
    newest = λ k x h. elim (Bool-cases (item'.id == k)) [
      | inl mine ↦ announced_newest k x (ground (arith, stored k, h, here)) mine
      | inr other ↦
          let (e, there, about, version) = c.newest k x (ground (arith, stored k, h)) in
          (e, event_kept e there, about, version)
    ];
  }
    where
      Told : OutboxEvent ItemEventPayload → Type 0
      Told e = (x : Item) × (find item_key e.aggregate_id d'.tables.items ≡ some x) × Tells x e

      stored :
          (k : ℕ)
          → find item_key k d'.tables.items ≡ (
              if item'.id == k
              then elim (find item_key k d.tables.items) [ none ↦ none | some _ ↦ some item' ]
              else find item_key k d.tables.items)
      stored k = rw items (find-save item_key item' k d.tables.items)

      own : (k : ℕ) → k ≡ item'.id → find item_key k d'.tables.items ≡ some item'
      own k e = ground (arith, stored k, here)

      old :
          {e : OutboxEvent ItemEventPayload}
          → (x : Item) × (find item_key e.aggregate_id d.tables.items ≡ some x) × Tells x e
          → Told e
      old {e} (x, there, t) = elim (Bool-cases (item'.id == e.aggregate_id)) [
        | inl mine ↦
            let same : item ≡ x = ground (arith, here, there) in
            let version : item.version ≡ x.version = ap (λ (i : Item). i.version) same in
            (
              item',
              own e.aggregate_id (ground arith),
              record {
                item_id = ground arith;
                not_ahead = omega (arith, t.not_ahead, version, next);
                current = λ q. absurd (omega (arith, t.not_ahead, version, next, q));
                payload_id = t.payload_id;
                payload_version = t.payload_version;
                event_type = t.event_type;
              },
            )
        | inr other ↦ (x, ground (arith, stored e.aggregate_id, there), t)
      ]

  -- A new item, announced.
  pub inserted-IsNumbered :
      find item_key item'.id d.tables.items ≡ none
      → d'.tables.items ≡ insert item' d.tables.items
      → IsNumbered d'
  inserted-IsNumbered absent items = record {
    told = λ k e h. elim (event_cases k e h) [
      | inl was ↦
          let (x, there, t) = c.told k e was in (x, ground (arith, stored e.aggregate_id, there), t)
      | inr new ↦ subst Told new (item', own a.event.aggregate_id a.event_item, announced-Tells)
    ];
    newest = λ k x h. elim (Option-cases (find item_key k d.tables.items)) [
      | inl fresh ↦
          announced_newest k x (ground (arith, stored k, h, fresh))
            (ground (arith, stored k, h, fresh))
      | inr (y, there) ↦
          let (e, sent, about, version) = c.newest k x (ground (arith, stored k, h, there)) in
          (e, event_kept e sent, about, version)
    ];
  }
    where
      Told : OutboxEvent ItemEventPayload → Type 0
      Told e = (x : Item) × (find item_key e.aggregate_id d'.tables.items ≡ some x) × Tells x e

      stored :
          (k : ℕ)
          → find item_key k d'.tables.items ≡ elim (find item_key k d.tables.items) [
            | none ↦ if item'.id == k then some item' else none
            | some b ↦ some b
          ]
      stored k = rw items (find-insert item_key item' k d.tables.items)

      own : (k : ℕ) → k ≡ item'.id → find item_key k d'.tables.items ≡ some item'
      own k e = ground (arith, stored k, absent)
