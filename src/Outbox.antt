-- ===== src/Outbox.antt =====
-- The outbox publisher: `_publish_batch` of app/messaging/publisher.py with the queries of
-- app/repositories/outbox_repository.py. Of the loop round it, the connection to the broker and the
-- pauses are not modelled.
pub mod Steps
pub mod Pending
pub mod Batch
pub mod Publishing
pub mod History
pub mod Counting
pub mod Advancing
pub mod Draining
use Prim.Native.Nat.{min, max}
use trabalho_devops.Prelude.{
  ℕ, zero, suc, ◌+◌, ◌*◌, ◌^◌, String, Bool, true, false, ◌&&◌, ◌||◌, Option, none, some, List, [],
  ◌∷◌, leb, if◌then◌else◌, select, take,
}
use trabalho_devops.Exec.{Exec, Result, ok, err, pure, ◌>>=◌, ◌>>◌}
use trabalho_devops.Store.{Session, utc_now, query, write, commit, close}
use trabalho_devops.Table.{find, save, order_by}
use trabalho_devops.Messaging.{
  Settings, OutboxEvent, OutboxStatus, pending, published, failed, exhausted, Db, event_key,
}

-- Durations are in milliseconds.
abbrev pub max_retry_delay : ℕ
max_retry_delay = 60000

unfoldable pub retry_delay : Settings → ℕ → ℕ
retry_delay settings publish_attempts =
    min max_retry_delay (settings.outbox_publish_retry_delay * max 1 (2 ^ publish_attempts))

-- `status == "PENDING" or status == "FAILED"`
abbrev pub is_open : OutboxStatus → Bool
is_open pending = true
is_open failed = true
is_open published = false
is_open exhausted = false

module _ {P : Type 0} where
  abbrev pub is_due : ℕ → OutboxEvent P → Bool
  is_due now e = is_open e.status && leb e.available_at now

  -- What the three functions that mark a row make of it.
  abbrev pub as_published : ℕ → OutboxEvent P → OutboxEvent P
  as_published published_at e = record e {
    status = published;
    published_at = some published_at;
    last_error = none;
    publish_attempts = e.publish_attempts + 1;
  }

  abbrev pub as_failed : String → ℕ → OutboxEvent P → OutboxEvent P
  as_failed last_error next_available_at e = record e {
    status = failed;
    last_error = some last_error;
    available_at = next_available_at;
    publish_attempts = e.publish_attempts + 1;
  }

  abbrev pub as_exhausted : String → OutboxEvent P → OutboxEvent P
  as_exhausted last_error e = record e {
    status = exhausted;
    last_error = some last_error;
    publish_attempts = e.publish_attempts + 1;
  }

-- The database's own exceptions are left out, so that none of these raises.
abbrev pub Op : Type 0 → Type 0 → Type 0 → Type 0
Op P T A = Exec String (Session (Db P T)) A

module _ {P T : Type 0} where
  -- No other transaction holds a lock, so that `skip_locked` skips nothing.
  unfoldable pub list_pending_outbox_events : ℕ → Op P T (List (OutboxEvent P))
  list_pending_outbox_events limit = do
    now ← utc_now
    query λ d.
        take limit (order_by (λ (e : OutboxEvent P). e.occurred_at) (select (is_due now) d.outbox))

  -- `session.get`, then the assignments, if the row is there.
  abbrev pub mark :
      (OutboxEvent P → OutboxEvent P) → Option (OutboxEvent P) → Op P T (Option (OutboxEvent P))
  mark change none = pure none
  mark change (some e) = do
    write (λ d. record d { outbox = save event_key (change e) d.outbox })
    pure (some (change e))

  unfoldable pub mark_outbox_event_published : ℕ → ℕ → Op P T (Option (OutboxEvent P))
  mark_outbox_event_published event_id published_at = do
    row ← query λ d. find event_key event_id d.outbox
    mark (as_published published_at) row

  unfoldable pub mark_outbox_event_failed : ℕ → String → ℕ → Op P T (Option (OutboxEvent P))
  mark_outbox_event_failed event_id last_error next_available_at = do
    row ← query λ d. find event_key event_id d.outbox
    mark (as_failed last_error next_available_at) row

  unfoldable pub mark_outbox_event_exhausted : ℕ → String → Op P T (Option (OutboxEvent P))
  mark_outbox_event_exhausted event_id last_error = do
    row ← query λ d. find event_key event_id d.outbox
    mark (as_exhausted last_error) row

  -- The two branches of the handler of a failed publication.
  unfoldable pub give_up : OutboxEvent P → String → Op P T (Unit {0})
  unfolding mark_outbox_event_exhausted
  give_up e exc = mark_outbox_event_exhausted e.id exc >> commit

  unfoldable pub delay : Settings → OutboxEvent P → String → Op P T (Unit {0})
  unfolding mark_outbox_event_failed retry_delay
  delay settings e exc = do
    now ← utc_now
    mark_outbox_event_failed e.id exc (now + retry_delay settings e.publish_attempts)
    commit

  -- What follows the publication of an event, by its outcome.
  unfoldable pub settle : Settings → OutboxEvent P → Result String (Unit {0}) → Op P T (Unit {0})
  unfolding mark_outbox_event_published give_up delay
  settle settings e (ok _) = do now ← utc_now; mark_outbox_event_published e.id now; commit
  settle settings e (err exc) =
      if leb settings.outbox_publish_max_attempts (e.publish_attempts + 1)
      then give_up e exc
      else delay settings e exc

-- The publisher's session, and the broker that it sends to.
pub record Relay (P T B : Type 0) : Type 0 where
  pub session : Session (Db P T)
  pub broker : B

-- `exchange.publish` returns, or raises an exception with a text; the broker may change either way.
module _ {P T B : Type 0} (settings : Settings)
    (publish : OutboxEvent P → Exec String B (Unit {0})) where
  -- On with the loop after a success; `break` after a failure.
  abbrev pub go_on :
      Result String (Unit {0}) → Exec String (Relay P T B) ℕ → Exec String (Relay P T B) ℕ
  go_on (ok _) rest = do count ← rest; pure (count + 1)
  go_on (err exc) rest = pure 0

  unfoldable pub publish_each : List (OutboxEvent P) → Exec String (Relay P T B) ℕ
  unfolding settle
  publish_each [] r = (ok 0, r)
  publish_each (e ∷ es) r =
      let (outcome, b) = publish e r.broker in
      let (_, s) = settle settings e outcome r.session in
      go_on outcome (publish_each es) (record { session = s; broker = b })

  -- The rest of the batch, from the rows that the query has returned.
  abbrev pub publish_loaded : Result String (List (OutboxEvent P)) → Exec String (Relay P T B) ℕ
  publish_loaded (ok outbox_events) r = publish_each outbox_events r
  publish_loaded (err exc) r = (err exc, r)

  unfoldable pub publish_batch : Exec String (Relay P T B) ℕ
  unfolding list_pending_outbox_events publish_each
  publish_batch r =
      let (outbox_events, s) =
        list_pending_outbox_events settings.outbox_publish_batch_size (close r.session) in
      let (published_count, r') =
        publish_loaded outbox_events (record { session = s; broker = r.broker }) in
      (published_count, record r' { session = close r'.session })

  -- So many turns of the inner loop of `_run_loop`; the pauses change nothing.
  unfoldable pub publish_batches : ℕ → Relay P T B → Relay P T B
  publish_batches zero r = r
  publish_batches (suc n) r = publish_batches n (publish_batch r).1
