-- ===== src/Lib.antt =====
-- Verification of the core of the food delivery API: the order service with its saga, and the
-- inventory service that it reserves stock from, the payment service that it charges by, the catalog
-- with its read model, the reviews that rate it, and the shared libraries that carry their messages
-- and their settings.
--
-- An order is placed through apps/order (PlaceOrderHandler), which stores the order, a saga and a
-- command for the inventory in one transaction. The inventory service (apps/inventory) answers the
-- command, the order service handles the answer, charges the payment, handles the answer of that,
-- and ends the saga in COMPLETED or CANCELLED. Commands and answers go through an outbox table and
-- Kafka, and each consumer marks the events that it has processed (libs/shared/messaging).
--
-- Common holds what the files share: thrown errors as values and calls that read and write a store
-- (Common/Calls), rows of a database table (Common/Table), a JavaScript number as the checks of the
-- source see it (Common/Number), lists, tests and integers. Instants are natural numbers, and so
-- are the ids of the order, inventory and payment services.
--
-- Order holds apps/order. Order/Status and Order/Aggregate are domain/order/order.ts, Order/Item is
-- domain/order/order-item.ts, Order/SagaState and Order/Saga are domain/saga, Order/Errors is
-- domain/shared/errors.ts, Order/Commands is application/saga/saga-commands.ts, Order/Store is the
-- database with its repositories, Order/Menu and Order/Place are place-order.handler.ts,
-- Order/Lifecycle is the cancellation and the confirmation by a user, Order/Replies the two
-- handlers of the saga's replies, Order/Reaper the sweep that redrives stranded sagas, and
-- Order/Life the way of an order from its placement to its end. Inventory holds apps/inventory:
-- Items and Reserve are reserve-stock.handler.ts, Release is release-stock.handler.ts, Store the
-- repositories, Commands the consumer of commands, Units the sum of the stock on the shelf and in
-- reservations. Messaging/Idempotent is runOnce, and Messaging/Consume the life of one message from
-- its bytes to its commit.
--
-- Messaging/Envelope is event-envelope.ts, Messaging/Producer is kafka-producer.ts,
-- Messaging/DeadLetter is dead-letter.ts, and Messaging/Relay the relay of the outbox, outbox-
-- relay.ts, with the outbox table of a service in Messaging/Relay/Outbox (the adapter in
-- apps/payment/src/infrastructure/outbox, which those of the other two services repeat) and the
-- advisory lock of libs/shared/persistence in Persistence. Payment holds apps/payment:
-- Payment/Charge is the charge workflow with its activities, Payment/Gateway the adapter of the
-- workflow service and the consumer of commands, Payment/Webhook the verification of the provider's
-- webhook and its controller. Settings is the client of the configuration service with its cache
-- (libs/shared/settings). Config holds the values of that service (apps/config). Locking is the
-- lock over several keys (libs/shared/locking). Each of these has its theorems in the files below
-- it.
--
-- Catalog holds apps/catalog: Catalog/Names, Catalog/Restaurant and Catalog/Item are the aggregates
-- of domain/restaurant and domain/menu-item, Catalog/Events is catalog-event.factory.ts,
-- Catalog/Store the tables with the audit log and the outbox, Catalog/Restaurants and Catalog/Items
-- the two repositories, Catalog/Versions their versioned updates, Catalog/Commands the six handlers
-- of application/restaurant/commands and application/menu-item/commands, and Catalog/ReadModel the
-- projectors of application/projections with the read tables and the consumers. Below it, Projection
-- says when the read model shows the tables, Restaurants and Items do so for one event,
-- RestaurantSteps and ItemSteps for one command, Runs for any sequence of commands, Ratings for the
-- events of the reviews, and Backfill for infrastructure/outbox/backfill-read-model.ts. A message of
-- the catalog's outbox is delivered once and in the order of the outbox; Delivery has the second
-- delivery. Review holds apps/review: the submission of a review and the eligibility of an order,
-- with Submission for one call, Ratings for any sequence of calls and Once for the one review of an
-- order. The average that the database computes, rounded by the platform, is an argument there.
-- Tenancy is the context of a request in libs/shared/tenancy, with the headers of the identity in
-- Tenancy/Headers (identity-headers.ts), their signature and the interceptor that checks it in
-- Tenancy/Signature (identity-signature.ts, trusted-identity.interceptor.ts), the guard of roles in
-- Tenancy/Roles (roles.guard.ts), the signature of a call in Tenancy/Grpc
-- (grpc-identity-signature.ts), and Tenancy/Signed and Tenancy/Identities on what is accepted and
-- what a signature settles; the keyed hash, the reading of hexadecimal bytes and the text of a time
-- are arguments.
--
-- A handler is a function from a store to a result and a store. A transaction that throws gives the
-- store back as it was. What other requests write between two transactions of one call is an
-- argument of the call (Outside.meanwhile of Order/Place), and so are the clock, fresh UUIDs, the
-- answer of the catalog service, the pricing settings and the order of ids that localeCompare
-- gives. Loops are recursions on the list that the source iterates over, or on the number of
-- attempts that are left, so no fuel is needed. Amounts are exact: they are checked against
-- 2147483647 before they are stored, which is far below the bound up to which doubles are exact.
--
-- The broker, the workflow service, Redis, the lock functions of the database, the keyed hash,
-- JSON, utf8 and the configuration service belong to other code and are arguments. A number that a
-- webhook carries is a whole count of parts of a size, as every double is. A text is a native
-- string where the code keeps or compares it whole, and a list of code points where it takes it
-- apart. The rounds of the relay are counted by the caller, and those of a lock are as many as
-- changes of the server are given. The retry of a payment activity is a further run of it. Whether
-- a handler of Inventory gets its locks is an argument; where it does not, it throws. Each call is
-- one step, or two where Outside.meanwhile stands between them: transactions that overlap under
-- read committed are not told apart from that, so that a submission of a review sees every earlier
-- one.
--
-- Not modelled: Kafka, Redis and the workflow service themselves, HTTP and gRPC, the cached copy of a
-- restaurant and the lists of the catalog by page, and the other services of the repository.
pub mod Catalog
pub mod Common
pub mod Config
pub mod Inventory
pub mod Locking
pub mod Messaging
pub mod Order
pub mod Payment
pub mod Persistence
pub mod Review
pub mod Settings
pub mod Tenancy
