-- ===== src/Lib.antt =====
-- A model of the lost-and-found platform: services that keep a database each and tell each other
-- what happened through events.
--
-- The program and its parts
--
--   item-service owns the items. matching-service keeps projections of them, fed by the item
--   events, and suggests matches; a user accepts one. recovery-case-service hears of the accepted
--   match, opens a recovery case and asks item-service, over HTTP, to move both items; a user
--   cancels or completes the case, which asks item-service again. Every service writes its events
--   to an outbox table in the transaction that makes the change, and a publisher sends the rows to
--   the broker; a consumer registers each event that it has processed.
--
-- Which file models which part
--
--   Prelude, Keys     names and lists that the others share; numbers drop out of a list
--   Exec              a function that reads and writes a state and may raise, as
--                     `S → Result E A × S`, so that what was written before a raise stays written
--   Store             a SQLAlchemy session (app/db/session.py of each service): `working` is what
--                     the session sees, `committed` what the database keeps; uuid4 and the clock
--                     are sequences of values, read one by one
--   Table             a table with a primary key, as the list of its rows
--   Messaging         app/schemas/events.py, app/models/outbox.py, app/models/processed_event.py,
--                     app/messaging/{outbox,idempotency,topology}.py,
--                     app/repositories/{outbox,processed_event}_repository.py of item-service, of
--                     which the other services carry copies
--   Outbox            app/messaging/publisher.py of item-service and the rest of its
--                     app/repositories/outbox_repository.py
--   Item              item-service/app: Models (models, schemas, core/exceptions.py),
--                     Transitions, Records, Service and Update (services/item_service.py and the
--                     repositories, function by function under the same names), Requests (the
--                     requests in sequence), Api (api/items.py, api/internal_recovery.py), Board (the
--                     statuses of the items as an abstract machine)
--   Recovery          recovery-case-service/app: Models (models, schemas, core/exceptions.py),
--                     Records, Service, Consume and Decide (services/recovery_case_service.py and
--                     the repositories), Requests (messaging/consumer.py), Api
--                     (api/recovery_cases.py)
--   Matching          matching-service/app: Models (models, schemas, core/exceptions.py), Tokens
--                     and Scoring (normalize_value, tokenize, is_match_candidate_pair), Records
--                     (the repositories), Service and Suggest (the other functions of
--                     services/matching_service.py), Api (api/matches.py). Texts
--                     are exact for Latin-1 code points, which Python's lower and strip treat as
--                     modelled
--   Auth              auth-service/app: Models (models/user.py, schemas/user.py, core/exceptions.py),
--                     Libraries (passlib, python-jose and pydantic, as parameters), Service
--                     (core/security.py, services/user_service.py, repositories/user_repository.py),
--                     Api (core/dependencies.py, api/auth.py), Requests (the requests in sequence)
--   Gateway           gateway/app: Models (schemas/auth.py, core/exceptions.py, main.py), Security
--                     (services/security.py), Proxy (services/proxy_service.py), Routes
--                     (api/public.py, with the framework's choice of a route)
--   Saga              recovery-case-service/app/services/item_service_client.py over item-service's
--                     endpoints (Item/Api: api/items.py, api/internal_recovery.py)
--   Identity          auth-service behind the gateway
--   Propagation       item-service's outbox (serialize_outbox_event of messaging/publisher.py)
--                     delivered to matching-service
--   Tests             runs on concrete data, and each property applied to one
--
--   The other modules hold proofs and are named for what they are about.
--
-- How the code is represented
--
--   A function that takes a session is one of the same name into Exec; `if x: raise e` is raise_if
--   or raise_unless, and a do block follows the order of the statements. Identifiers (UUIDs), dates
--   and times are natural numbers. A text that the code walks is the list of its code points, any
--   other one is a String; the texts of error messages are left out where the code does not read
--   them again. An assignment to the fields of a loaded object is an update of its row. The
--   functions after a long function's cut (finish_update, prepare_case, conclude_opening and the
--   like) are its parts, in their order.
--
--   The client of item-service is a parameter of recovery-case-service: each of its calls changes
--   a remote system in some way and returns a response that validates or raises an
--   ItemServiceIntegrationError with a text. A success whose body is no such response, which
--   item-service does not send, escapes from `_post` as another exception; that path is left out.
--   Saga puts the model of item-service in its place, behind a network that answers a call, does
--   not deliver it, or loses the answer. pydantic's validation of a payload is a parameter too.
--   The unique indexes of recovery_cases are checked where the code flushes and commits; no other
--   transaction runs in between, so that what a concurrent one could do is not shown. The same
--   holds of the indexes of auth-service's users.
--
--   The hashing of passwords and the tokens are parameters with hypotheses where a theorem needs
--   them: a password matches its hash, and a token decodes, until it expires, to what it was made
--   of. At the gateway the services are a function from calls to responses, and the calls that have
--   been made are the state; a path is the list of its pieces, as the web server has decoded it, and
--   stays such a list: that httpx parses the string again (a decoded `?`, `#` or `..`), and adds
--   headers of its own to the gateway's dictionary, is left out.
--
-- What is not modelled
--
--   The lengths of the columns: a category or a colour of more than 100 characters, which the
--   requests of item-service admit, fails in the database; the theorems on its update and on its
--   answers ask for shorter ones. A NUL in a password, for which passlib raises. Redirects of the
--   framework for a trailing slash. The HTTP, AMQP and database drivers, settings, logging,
--   metrics and migrations. The listings and the conversions to responses, which change nothing.
--   No function needs fuel: every loop is over a list, and the endless one of the publisher is
--   run for a given number of turns (publish_batches).
pub mod Auth
pub mod Exec
pub mod Gateway
pub mod Identity
pub mod Item
pub mod Keys
pub mod Matching
pub mod Messaging
pub mod Outbox
pub mod Prelude
pub mod Propagation
pub mod Recovery
pub mod Saga
pub mod Store
pub mod Table
pub mod Tests
