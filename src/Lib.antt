-- ===== src/Lib.antt =====
-- The server of fishhub: devices in the field, their users and their firmware.
--
-- The program is a Go server over one PostgreSQL database and one MQTT broker. Users sign in
-- (internal/auth), have an account with a time zone (internal/account), and get codes with which
-- their devices activate themselves (internal/provisioning, internal/device). What has to reach the
-- broker is written to the table outbox_events in the transaction of the change that calls for it,
-- and a runner (internal/outbox) hands each event to the processor of its type until it succeeds or
-- has used up its attempts. The firmware service (internal/firmware) offers a device the latest
-- release, and follows its reports.
--
-- Schema: the rows of the tables. World: how the services act, on the database, the broker, the
--   clock and the random source, with Go's error returns as values; World/Post: postconditions of
--   such actions, by which the services are proved from their stores.
-- Outbox: store_postgres.go and runner.go (ClaimBatch is claim_batch, RecordFailure is
--   record_failure, Runner.tick is tick, Runner.Run is run over a number of rounds).
-- Firmware: service.go, with device_firmware_store.go in Firmware/Store and the handlers in
--   Firmware/Handlers (ConfirmUpdate is confirm_update, RetryUpdate is retry_update, IngestStatus is
--   ingest_status).
--   Firmware/Poller: the poller of releases (poller.go, where Run is polls over a number of ticks)
--   with the reader of manifests (manifest_store.go). Its cached release is what Firmware.Config has
--   as the latest one.
-- Auth: service.go, with store_postgres.go in Auth/Store and handler.go in Auth/Handlers.
--   Auth/Github: github.go, the fetcher that Auth.Config may have; Auth/Vouched is about the address
--   of a user of GitHub.
-- Account: service.go, store_postgres.go, events.go, handler.go and outbox_processor.go;
--   Account/Timezones: timezone_posix.go, the whole table.
-- Device: store.go and the deletion of service.go, with the activation status. Device/Handlers: the
--   list, the commands, and the handlers of internal/api/handler.go; Device/Gone is about a device
--   that has been deleted.
-- Provisioning: store.go, activation.go, outbox_processor.go, and the handlers of internal/api that
--   call them. Account and Provisioning enqueue by Outbox.insert; their processors are what
--   Outbox.run calls.
-- Brokers: what the two clients of a broker's API share, with internal/hivemq/client.go in
--   Brokers/Hivemq and internal/emqx/client.go in Brokers/Emqx; Brokers/Retry is about an event of
--   Provisioning that is tried again.
-- DeviceJwt: the claims of internal/devicejwt. Platform: the authenticators of
--   internal/platform/middleware.go, with the one route of main.go that devices ask; Platform/Tokens is
--   about the token that Provisioning hands out.
-- Senml: internal/senml. Measurements: service.go, mqtt_handler.go and model.go of
--   internal/measurement, with the handler of readings of internal/api; Measurements/Influx is
--   store_influx.go; Measurements/Latest is about the reduction of rows, Measurements/Ingest about the
--   way from a payload to the last readings, which a peripheral shows.
-- DeviceModels: internal/devicemodel/store.go, and the handler of a device's model.
-- Peripherals: internal/peripheral/service.go, with store.go in Peripherals/Store, Create, Violations
--   and Model, outbox_processor.go in Peripherals/Pushes, and the handlers of internal/api/handler.go
--   in Peripherals/Handlers (Register is register, SetControlMode is control_mode). The others are
--   about: Register a registration, Apart, Keeping and Steps clashes of peripherals, Removal and Freed
--   a deletion, Schedules, Ports and Modes what their names say. World/Keeps: actions that keep
--   a property of the database.
-- Triggers: internal/trigger/service.go, with store.go in Triggers/Store, outbox_processor.go in
--   Triggers/Pushes, the configurations of actions in Triggers/Configs, and the handlers of
--   internal/api/trigger_handler.go in Triggers/Handlers. Resolution and Creation are about a
--   request for a trigger, Foreign, Gone and Lost about what their names say.
-- Runner: the processors that main.go gives to the runner; Kept and Announced are about the
--   services that enqueue, Refused about a device whose credentials the broker does not take.
-- TriggerEvents: mqtt_handler.go and store.go of internal/trigger_events, with GetActions of
--   internal/trigger/store.go; World.jobs is the queue trigger-actions.
--   TriggerEvents/History is the list of events with its handler (internal/api).
-- Alerts: internal/actions/alert/processor.go, which cmd/worker runs on the jobs that TriggerEvents
--   enqueues, with internal/alerts and ListAlertsHandler of internal/api; Alerts/Raised is about one
--   job, Alerts/Reported about the way from a report of a device to an alert.
-- Pages: lists that are read by cursors (internal/api/cursor.go); Pages/Order is the order of rows,
--   Pages/Sorted a sorted list, Pages/Complete a client that follows the cursors.
-- Text: strings.Split, strings.Contains, strings.TrimSpace and deviceIDFromTopic. Text/Order: the
--   order of texts.
-- Tests: the theorems at concrete states.
--
-- Each call that leaves the process may fail: World.faults says which ones do, so that a theorem
-- about every state is one about every pattern of failures. A transaction that ends in an error
-- restores the database; a failed commit is one that did nothing. Drawn values (ids, nonces,
-- tokens) come from World.supply. Identifiers are texts, timestamps are seconds, and the clock stands
-- still within an operation. Numbers are natural numbers; none of the counters of the program comes
-- near the bounds of its integers. There is no fuel: every loop runs over a list, Runner.Run over
-- a number of rounds, and a client that follows cursors sends a number of requests, which more than
-- the number of events is enough for.
--
-- Not modelled: the HTTP client, the clients of S3 and of InfluxDB, paho (internal/mqtt), asynq
-- (internal/queue/asynq), the signing of tokens (internal/jwtutil) and the JSON decoder, which are
-- parameters; the construction of the server in main.go and cmd/worker; the log; foreign keys;
-- requests that interleave within one operation, but for two calls of ConfirmUpdate (Firmware/Race);
-- the flag by which PublishRetained differs from Publish. Where the order of rows is left to
-- PostgreSQL, the rows of an outbox batch are taken in the order of the table, and the row that
-- GetOrCreateCode finds is a parameter.
pub mod Prelude
pub mod Schema
pub mod World
pub mod Text
pub mod Pages
pub mod Outbox
pub mod Senml
pub mod Measurements
pub mod Device
pub mod Firmware
pub mod Account
pub mod DeviceModels
pub mod Peripherals
pub mod Triggers
pub mod Auth
pub mod Provisioning
pub mod Brokers
pub mod DeviceJwt
pub mod Platform
pub mod TriggerEvents
pub mod Alerts
pub mod Runner
pub mod Tests
