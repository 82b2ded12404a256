-- ===== src/Lib.antt =====
-- A verification library of the order platform: the saga that takes an order through payment,
-- stock and delivery estimate, and the services that it talks to.
--
-- The parts, their files here, and the code that they model:
--   Saga        services/orchestrator/saga_state_machine.py and models.py. `start_saga` is cut at
--               the calls of the services: Machine.antt goes up to the reservation, Confirm.antt
--               from there to the end, Compensate.antt is `_compensate`. Session.antt is the
--               SQLAlchemy session of one saga (`_transition`, commit, `_saga_result`), State.antt
--               the tables, Services.antt the services as the orchestrator sees them. Proofs: Trail
--               (the step log is a walk along the state diagram), Ends and Run (how a run may end),
--               Money, Confirmed and Unidentified (which services are called, and what the saga then
--               is).
--               Adapters.antt has the HTTP adapters of the payment, inventory and order services
--               (services/orchestrator/http_adapters.py) and the routes of app.py beside it.
--   Platform    the orchestrator with these adapters on the handlers of the payment and inventory
--               services. Attempt.antt is what a customer sees of a run; proofs: Calls (what each call
--               comes to), Cases and Refines (a run is such an attempt).
--   Inventory   services/inventory/app.py and contracts/inventory.py, handler by handler. Proofs:
--               Stock (the loops over the items), Reserve, Safety, Release, FlashSale.
--   Payment     services/payment/app.py and contracts/payment.py. Proofs: Ledger (what the rows of
--               `payments` hold), Authorize, Replay, Refund.
--   Order       services/order/app.py and models.py, contracts/order.py: Order.antt has the tables
--               and the creation of orders, Order/Queries.antt the other handlers. Proofs: Create,
--               Told (the outbox), Sorted and Listing (the pages), Update.
--   Events      contracts/events.py. Proof: RoundTrip. Events/Streams.antt is core/streams.py.
--               Proofs: Streams/Acked, Streams/Relayed (from the outbox to a consumer).
--   AuthMiddleware  core/auth_middleware.py. Proofs: Agree, Roles (who passes as an admin).
--   Auth        services/auth/app.py and models.py, contracts/auth.py: Auth.antt has the users and
--               their tokens, Auth/Tenants.antt the tenants and their keys. Proofs: Login, Emails,
--               Tenants/Keys.
--   Webhook     services/webhook/app.py and models.py, contracts/webhook.py: Webhook.antt has the
--               tables, the delivery and the dispatch, Subscriptions.antt the subscriptions and the
--               log, Retry.antt the redelivery. Proofs: Dispatch, Reached (the databases that the
--               handlers make).
--   Monitoring  services/monitoring/: Monitoring.antt is models.py, Predictions.antt
--               prediction_logger.py, Performance.antt performance_tracker.py, Drift.antt
--               drift_detector.py, Gate.antt retrain_gate.py, Endpoints.antt app.py. Proofs:
--               Performance/Bounds, Gate/Decides, Endpoints/Stuck, Drift/Reports.
--   Notifier    services/notifier/app.py. Proof: Once.
--   Core        core/database.py (Session.antt), core/idempotency.py, core/outbox.py (Outbox.antt, and
--               Outbox/Sync.antt with SyncStreamBroker; proofs: Outbox/Relay),
--               core/rate_limiter.py (RateLimiter.antt; proofs: RateLimiter/Window),
--               core/http.py (Http.antt; proofs: Http/Breaker),
--               core/security.py (Security.antt; proofs: Security/Tokens), the exceptions of the
--               handlers (Result.antt), and Python's datetime as far as they use it (DateTime.antt).
--   Prelude     numbers, lists, dicts and tests that the parts share.
-- Every part has its Tests.antt with concrete runs.
--
-- How they interact: the orchestrator calls the payment, inventory, ETA and order services through
-- the objects that it is constructed with. They are any functions on a world `W` here, which may
-- raise, so what is proved of a saga holds whatever the services do. The handlers of the services
-- share the idempotency store and `get_session`; the auth service issues the tokens that the
-- middleware reads, and the tenants' API keys; the order service writes its rows and those of the
-- outbox in one transaction, and the relay publishes the latter later.
--
-- How state is modelled: a service is a record of its rows and of its idempotency store, and a
-- handler is a function from a request and a service to its answer and the service after it. Rows
-- stand in the order of their primary keys; a UNIQUE column is checked when the block is flushed,
-- and raises IntegrityError; `get_session` keeps what a block wrote if it returns and nothing if it
-- raises. Identifiers made by uuid4, random draws and readings of the clock are arguments. JSON text
-- columns are the values that they hold. The row locks make handlers take turns, so a run of many
-- callers is the sequence of their turns. Floats are stored, compared and negated only: a finite
-- double is an integer multiple of 2^-1074 (Prelude/Float.antt).
--
-- No function of the program needs fuel: the loops run over lists, over a given number of batches, or
-- over the retries that are left, which `max_retries` bounds. The consumer of a stream runs until it is
-- stopped; the number of its rounds is an argument.
--
-- Parameters, for code that is not in the repository: sha256 (`digest`), json.dumps and json.loads
-- (`dumps`, `loads`), the ORDER BY of the database (`order_by`), str.upper (`upper`), str of an
-- exception and of a number, the stream broker and the commands of Redis, and the HTTP transport; PyJWT (`Jwt`), bcrypt
-- (`Bcrypt`) and the HMAC (`hexdigest`); what a DateTime column gives back (`fetch`); the rounded
-- arithmetic of doubles (`FloatOps`), their texts (`Format`), and numpy's part of the drift score
-- (`psi`). Where a theorem relies on what one of them does, that stands among its hypotheses.
--
-- Not modelled: failures of the database other than a UNIQUE constraint (but for the commit of the
-- outbox relay), the validation of requests by pydantic, logging, metrics and artificial latency;
-- interleavings inside one call of the rate limiter or of the HTTP client; the HTTP adapter of the ETA
-- service; the connection to Redis; the training pipelines, the notebooks and the consoles.
pub mod Prelude
pub mod Core
pub mod Events
pub mod Order
pub mod AuthMiddleware
pub mod Auth
pub mod Webhook
pub mod Monitoring
pub mod Notifier
pub mod Inventory
pub mod Payment
pub mod Saga
pub mod Platform
