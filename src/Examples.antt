-- ===== src/Examples.antt =====
-- Runs of the model at concrete inputs: clients that write a log of their calls.
mod Workflow
mod Listing
mod Auth
mod Sentry
mod Server
mod Tools
mod Offered
mod Lock
mod Telemetry
mod Main
mod Served
